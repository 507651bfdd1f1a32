-- ===== src/Identity/Tests.antt =====
-- Keys and addresses on which the theorems apply.
use sockethub.Base.{Text, codes, text_eq}

abbrev irc : Text
irc = codes "irc"

abbrev nick : Text
nick = codes "jim@\"host\""

abbrev address : Text
address = codes "10.0.0.7"
