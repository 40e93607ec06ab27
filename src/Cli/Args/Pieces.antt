-- ===== src/Cli/Args/Pieces.antt =====
-- What an operator can write, and that it is read as it is meant.
use mathlib.Core.List.{append-nil, append_assoc}
use vaultcrdt_server.Base.{
  if◌then◌else◌, tests, ◌==◌, nat_eq, list_eq, option_eq, pair_eq, Bool-cases, nat_beq, nat_beq_iff,
  All, Text, codes, ◌≡◌, ◌↔◌, refl, sym, ap, ◌∙◌, subst, inl, inr, Bool, true, false, ◌||◌, Option,
  none, some, List, [], ◌∷◌, ◌++◌, arith, ℕ,
}
use vaultcrdt_server.Base.Strings.{strip_prefix, starts_with}
use vaultcrdt_server.Cli.Url.{normalize_url}
use vaultcrdt_server.Cli.Args.{
  Parsed, json_flag, url_of, url_flag, unknown_flag, positional, word, set_url, set_json, push,
  parse_from,
}

-- What an operator can write.
pub data Piece : Type 0 where
  flag : Piece
  -- `--server-url=value` if joined, and else two words; `url` is what it stands for.
  address : (joined : Bool) (value url : Text) → Piece
  name : Text → Piece

abbrev pub IsPiece : Piece → Type 0
IsPiece flag = Unit {0}
IsPiece (address joined value url) = normalize_url value ≡ some url
IsPiece (name t) = starts_with (codes "-") t ≡ false

abbrev pub written : List Piece → List Text
written [] = []
written (flag ∷ ps) = codes "--json" ∷ written ps
written (address true value url ∷ ps) = (codes "--server-url=" ++ value) ∷ written ps
written (address false value url ∷ ps) = codes "--server-url" ∷ value ∷ written ps
written (name t ∷ ps) = t ∷ written ps

abbrev pub names : List Piece → List Text
names [] = []
names (flag ∷ ps) = names ps
names (address joined value url ∷ ps) = names ps
names (name t ∷ ps) = t ∷ names ps

abbrev pub last_url : Option Text → List Piece → Option Text
last_url u [] = u
last_url u (flag ∷ ps) = last_url u ps
last_url u (address joined value url ∷ ps) = last_url (some url) ps
last_url u (name t ∷ ps) = last_url u ps

abbrev pub asks_json : Bool → List Piece → Bool
asks_json b [] = b
asks_json b (flag ∷ ps) = asks_json true ps
asks_json b (address joined value url ∷ ps) = asks_json b ps
asks_json b (name t ∷ ps) = asks_json b ps

abbrev pub extended : Parsed → List Piece → Parsed
extended p ps = record {
  positionals = p.positionals ++ names ps;
  server_url = last_url p.server_url ps;
  json = asks_json p.json ps;
}

word_positional : (t : Text) → starts_with (codes "-") t ≡ false → word t ≡ positional
unfolding word strip_prefix vaultcrdt_server.Base.list_beq
word_positional [] h = refl
word_positional (c ∷ cs) h = ground arith

-- The URL that an argument of its own gives.
pub parse_value :
    (p : Parsed) (value url : Text) (rest : List Text)
    → normalize_url value ≡ some url
    → parse_from p true (value ∷ rest) ≡ parse_from (set_url url p) false rest
unfolding parse_from
parse_value p value url rest h = rw (h, parse_from) refl

pub parse_no_value :
    (p : Parsed) (value : Text) (rest : List Text)
    → normalize_url value ≡ none
    → parse_from p true (value ∷ rest) ≡ none
unfolding parse_from
parse_no_value p value rest h = rw (h, parse_from) refl

-- One argument that is no URL.
pub parse_flag :
    (p : Parsed) (arg : Text) (rest : List Text)
    → word arg ≡ json_flag
    → parse_from p false (arg ∷ rest) ≡ parse_from (set_json p) false rest
unfolding parse_from
parse_flag p arg rest h = rw (h, parse_from) refl

pub parse_url_flag :
    (p : Parsed) (arg : Text) (rest : List Text)
    → word arg ≡ url_flag
    → parse_from p false (arg ∷ rest) ≡ parse_from p true rest
unfolding parse_from
parse_url_flag p arg rest h = rw (h, parse_from) refl

pub parse_unknown :
    (p : Parsed) (arg : Text) (rest : List Text)
    → word arg ≡ unknown_flag
    → parse_from p false (arg ∷ rest) ≡ none
unfolding parse_from
parse_unknown p arg rest h = rw (h, parse_from) refl

pub parse_name :
    (p : Parsed) (arg : Text) (rest : List Text)
    → word arg ≡ positional
    → parse_from p false (arg ∷ rest) ≡ parse_from (push arg p) false rest
unfolding parse_from
parse_name p arg rest h = rw (h, parse_from) refl

-- A joined URL is read as one that follows.
pub parse_joined :
    (p : Parsed) (arg value : Text) (rest : List Text)
    → word arg ≡ url_of value
    → parse_from p false (arg ∷ rest) ≡ parse_from p true (value ∷ rest)
unfolding parse_from
parse_joined p arg value rest h = rw (h, parse_from) refl

abbrev with_names : Parsed → List Piece → List Text → Option Parsed
with_names p ps l =
    some (record {
      positionals = l;
      server_url = last_url p.server_url ps;
      json = asks_json p.json ps;
    })

pub parse_written :
    (ps : List Piece) (p : Parsed)
    → All IsPiece ps
    → parse_from p false (written ps) ≡ some (extended p ps)
unfolding parse_from word strip_prefix vaultcrdt_server.Base.list_beq
parse_written [] p h = ap (with_names p []) (sym (append-nil p.positionals))
parse_written (flag ∷ ps) p h = parse_written ps (set_json p) h.1
parse_written (address true value url ∷ ps) p h =
    parse_joined p (codes "--server-url=" ++ value) value (written ps) refl
    ∙ parse_value p value url (written ps) h.0
    ∙ parse_written ps (set_url url p) h.1
parse_written (address false value url ∷ ps) p h =
    parse_value p value url (written ps) h.0 ∙ parse_written ps (set_url url p) h.1
parse_written (name t ∷ ps) p h =
    parse_name p t (written ps) (word_positional t h.0)
    ∙ parse_written ps (push t p) h.1
    ∙ ap (with_names p ps) (append_assoc p.positionals (t ∷ []) (names ps))
