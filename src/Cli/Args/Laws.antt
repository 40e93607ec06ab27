-- ===== src/Cli/Args/Laws.antt =====
-- Which command lines are accepted, and what they say.
use mathlib.Core.List.{append-nil, append_assoc}
use vaultcrdt_server.Base.{
  nat_eq, list_eq, option_eq, pair_eq, All, Text, codes, ◌≡◌, ◌↔◌, refl, sym, ap, ◌∙◌, Bool, true,
  false, Option, none, some, List, [], ◌∷◌,
}
use vaultcrdt_server.Cli.Url.{normalize_url}
use vaultcrdt_server.Cli.Args.{
  Parsed, Word, json_flag, url_of, url_flag, unknown_flag, positional, word, set_url, set_json,
  push, parse_from, parse,
}
use vaultcrdt_server.Cli.Args.Pieces.{
  Piece, flag, address, name, IsPiece, written, names, last_url, asks_json, extended, parse_value,
  parse_no_value, parse_flag, parse_url_flag, parse_unknown, parse_name, parse_joined,
  parse_written,
}
use vaultcrdt_server.Cli.Args.Words.{
  IsWord, is_flag, is_url, is_url_flag, is_unknown, is_name, word-IsWord,
}

abbrev none_yet : Parsed
none_yet = record { positionals = []; server_url = none; json = false }

-- The pieces that arguments are made of, after the parameters `acc` of those before.
abbrev Explained : List Text → Parsed → Parsed → Type 0
Explained args acc p =
    (ps : List Piece) × All IsPiece ps × (written ps ≡ args) × (extended acc ps ≡ p)

abbrev waiting : Bool → List Text → List Text
waiting false args = args
waiting true args = codes "--server-url" ∷ args

abbrev Reads : List Text → Type 0
Reads args =
    (waits : Bool) (acc p : Parsed)
    → parse_from acc waits args ≡ some p
    → Explained (waiting waits args) acc p

read_value :
    (joined : Bool) (value : Text) (rest head : List Text) (acc p : Parsed)
    → Reads rest
    → ((url : Text) (ps : List Piece)
        → written ps ≡ rest
        → written (address joined value url ∷ ps) ≡ head)
    → parse_from acc true (value ∷ rest) ≡ some p
    → Explained head acc p
read_value joined value rest head acc p reads writes k = by_url (normalize_url value) refl
  where
    by_url : (o : Option Text) → normalize_url value ≡ o → Explained head acc p
    by_url none e = absurd (cc (sym (parse_no_value acc value rest e) ∙ k))
    by_url (some url) e =
        let (ps, pieces, w, x) =
          reads false (set_url url acc) p (sym (parse_value acc value url rest e) ∙ k) in
        (address joined value url ∷ ps, (e, pieces), writes url ps w, x)

read_word :
    (arg : Text) (rest : List Text) (acc p : Parsed) (w : Word)
    → Reads rest
    → IsWord arg w
    → word arg ≡ w
    → parse_from acc false (arg ∷ rest) ≡ some p
    → Explained (arg ∷ rest) acc p
read_word arg rest acc p json_flag reads (is_flag same) e k =
    let (ps, pieces, w, x) = reads false (set_json acc) p (sym (parse_flag acc arg rest e) ∙ k) in
    (flag ∷ ps, (tt, pieces), cc (same, w), x)
read_word arg rest acc p (url_of value) reads (is_url _ same) e k =
    read_value true value rest (arg ∷ rest) acc p reads (λ url ps w. cc (same, w))
      (sym (parse_joined acc arg value rest e) ∙ k)
read_word arg rest acc p url_flag reads (is_url_flag same) e k =
    let (ps, pieces, w, x) = reads true acc p (sym (parse_url_flag acc arg rest e) ∙ k) in
    (ps, pieces, w ∙ ap (λ a. a ∷ rest) (sym same), x)
read_word arg rest acc p unknown_flag reads is_unknown e k =
    absurd (cc (sym (parse_unknown acc arg rest e) ∙ k))
read_word arg rest acc p positional reads (is_name no_dash) e k =
    let (ps, pieces, w, x) = reads false (push arg acc) p (sym (parse_name acc arg rest e) ∙ k) in
    (
      name arg ∷ ps,
      (no_dash, pieces),
      ap (λ r. arg ∷ r) w,
      sym (
            ap
              (λ l. record {
                positionals = l;
                server_url = last_url acc.server_url ps;
                json = asks_json acc.json ps;
              })
              (append_assoc acc.positionals (arg ∷ []) (names ps)))
          ∙ x,
    )

read_back : (args : List Text) → Reads args
unfolding parse_from
read_back [] false acc p k =
    ([], tt, refl, ap (λ l. record acc { positionals = l }) (append-nil acc.positionals) ∙ cc k)
read_back [] true acc p k = absurd (cc k)
read_back (value ∷ rest) true acc p k =
    read_value false value rest (codes "--server-url" ∷ value ∷ rest) acc p (read_back rest)
      (λ url ps w. ap (λ r. codes "--server-url" ∷ value ∷ r) w) k
read_back (arg ∷ rest) false acc p k =
    read_word arg rest acc p (word arg) (read_back rest) (word-IsWord arg) refl k

-- A command line is accepted just if it is names without a dash in front, `--json`, and `--server-url` with
-- a URL, as one word or two, in any order and number; and then it says the names in their order, the last of
-- the URLs in its normal form, and whether `--json` is there.
pub parse_iff :
    (args : List Text) (p : Parsed)
    → (parse args ≡ some p) ↔ (
        (ps : List Piece) × All IsPiece ps
        × (written ps ≡ args)
        × (names ps ≡ p.positionals)
        × (last_url none ps ≡ p.server_url)
        × (asks_json false ps ≡ p.json))
unfolding parse
parse_iff args p = (
  λ k.
      let (ps, pieces, w, x) = read_back args false none_yet p k in
      (ps, pieces, w, ap (λ q. q.positionals) x, ap (λ q. q.server_url) x, ap (λ q. q.json) x),
  λ (ps, pieces, w, n, u, j).
      ap (parse_from none_yet false) (sym w) ∙ parse_written ps none_yet pieces ∙ cc (n, u, j),
)
