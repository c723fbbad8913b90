-- ===== src/Tests/Parser.antt =====
-- Runs of the parsers on the diagrams of their unit tests.
use finitomata_rs.Base.{◌∷◌, ◌++◌, []}
use finitomata_rs.Base.Text.{Text, text}
use finitomata_rs.Parser.Closed.{Good, IsClosedFsm}
use finitomata_rs.Parser.Sound.{mermaid_parse-IsClosed}
use finitomata_rs.Parser.Mermaid
use finitomata_rs.Parser.PlantUml

abbrev line : Text → Text
line s = text "   " ++ s ++ 10 ∷ []

abbrev diagram : Text
diagram =
    10 ∷ line (text "[*] --> idle")
    ++ line (text "idle --> |start!| running")
    ++ line (text "running --> |stop?| idle")
    ++ line (text "idle --> |shutdown| [*]")

abbrev uml : Text
uml =
    10 ∷ line (text "[*] -> idle")
    ++ line (text "state \"done\"")
    ++ line (text "idle --> running : start")
    ++ line (text "running -> [*] : stop!")

mermaid_parse-IsClosed_example : Good IsClosedFsm (Mermaid.parse diagram)
mermaid_parse-IsClosed_example = mermaid_parse-IsClosed diagram

-- Its third line has no arrow.
abbrev broken : Text
broken =
    text "[*] --> idle"
    ++ 10 ∷ text "%% a comment"
    ++ 10 ∷ text "idle running"
    ++ 10 ∷ text "and more"
