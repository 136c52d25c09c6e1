-- ===== src/Main/Sample.antt =====
-- A command line that names the bucket and the mount point, and a configuration.
use catfs.Common.{
  refl, false, true, Option, none, some, List, [], ◌∷◌, Text, bytes, lookup, text_key,
}
use catfs.Main.{Parser, Process, Outcomes}
use catfs.Main.Options.{Default, text, number, flag, Spec, IsParsed, set_cmdline}

abbrev pub given : List (Text × Default)
given = (bytes "bucket", text (bytes "b")) ∷ (bytes "mount", text (bytes "/m")) ∷ []

abbrev text_of : Default → Text
text_of (text v) = v
text_of (number _) = []
text_of flag = []

abbrev or_default : Option Default → Option Spec → Text
or_default (some v) _ = text_of v
or_default none (some o) = text_of o.def
or_default none none = []

abbrev pub parser : Parser
parser = record {
  get_text = λ name. or_default (lookup name given) (lookup name set_cmdline);
  get_number = λ _. 0;
  exist = λ _. false;
}

pub parser-IsParsed : IsParsed given parser
parser-IsParsed = record {
  given_text = λ name value e. rw e refl;
  default_text = λ name value o e f g. rw (e, f, g) refl;
}

abbrev pub content : (value : Text) → Text → Option Text
content value key = some value

abbrev pub process : Process
process = record { calls = []; catfs = none }

abbrev pub outcomes : Outcomes
outcomes = record { has_session = true; handlers = 0; mount = 0; detached = 1; loop = 0 }
