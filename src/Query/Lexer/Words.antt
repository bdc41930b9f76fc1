-- ===== src/Query/Lexer/Words.antt =====
-- The keywords: a word of letters in any case is its keyword.
use xuandb.Prelude.{
  Bool, true, false, ◌<◌, ◌&&◌, ◌||◌, leb, refl, arith, if◌then◌else◌, [], ◌∷◌, ◌++◌, ◌≡◌, ◌≢◌, All,
  ap, ◌∙◌, some, none,
}
use xuandb.Prelude.Map.{lookup}
use xuandb.Prelude.Text.{Text, codes, text_eq}
use xuandb.Prelude.Unicode.{Unicode, to_upper}
use xuandb.Query.Utf8.RoundTrip.{runes-ascii}
use xuandb.Query.Scanner.{Scanner}
use xuandb.Query.Scanner.Runes.{is_ident_rune}
use xuandb.Query.Scanner.Reading.{ahead, StartsPlain}
use xuandb.Query.Scanner.Ahead.{At}
use xuandb.Query.Lexer.Token.{
  Token, Keyword, keyword, ident, val_bool, keyword_of, key_alter, key_create, key_delete, key_drop,
  key_set, key_select, key_show, key_update, key_user, key_database, key_node, key_cluster,
  key_voter, key_nonvoter, key_as, key_at, key_by, key_for, key_in, key_on, key_where, key_with,
  key_group, key_limit, key_offset, key_join, key_between, key_duration, key_password,
  key_privilege,
}
use xuandb.Query.Lexer.Literals.{parse_ident}
use xuandb.Query.Lexer.Lex.{Tables}
use xuandb.Query.Lexer.Reading.{Lexes, lex-word, IsLetter}

-- The keywords in capitals.
unfoldable pub spelling : Keyword → Text
spelling key_alter = codes "ALTER"
spelling key_create = codes "CREATE"
spelling key_delete = codes "DELETE"
spelling key_drop = codes "DROP"
spelling key_set = codes "SET"
spelling key_select = codes "SELECT"
spelling key_show = codes "SHOW"
spelling key_update = codes "UPDATE"
spelling key_user = codes "USER"
spelling key_database = codes "DATABASE"
spelling key_node = codes "NODE"
spelling key_cluster = codes "CLUSTER"
spelling key_voter = codes "VOTER"
spelling key_nonvoter = codes "NONVOTER"
spelling key_as = codes "AS"
spelling key_at = codes "AT"
spelling key_by = codes "BY"
spelling key_for = codes "FOR"
spelling key_in = codes "IN"
spelling key_on = codes "ON"
spelling key_where = codes "WHERE"
spelling key_with = codes "WITH"
spelling key_group = codes "GROUP"
spelling key_limit = codes "LIMIT"
spelling key_offset = codes "OFFSET"
spelling key_join = codes "JOIN"
spelling key_between = codes "BETWEEN"
spelling key_duration = codes "DURATION"
spelling key_password = codes "PASSWORD"
spelling key_privilege = codes "PRIVILEGE"

-- What `parseIdent` makes of a word `tt` whose capitals are `utt`.
abbrev classify : Text → Text → Token
classify tt utt =
    if text_eq utt (codes "TRUE")
    then val_bool true
    else if text_eq utt (codes "FALSE")
    then val_bool false
    else elim (keyword_of utt) [ some t ↦ t | none ↦ ident tt ]

classify-spelling : (k : Keyword) (tt : Text) → classify tt (spelling k) ≡ keyword k
unfolding spelling keyword_of text_eq lookup
classify-spelling key_alter tt = refl
classify-spelling key_create tt = refl
classify-spelling key_delete tt = refl
classify-spelling key_drop tt = refl
classify-spelling key_set tt = refl
classify-spelling key_select tt = refl
classify-spelling key_show tt = refl
classify-spelling key_update tt = refl
classify-spelling key_user tt = refl
classify-spelling key_database tt = refl
classify-spelling key_node tt = refl
classify-spelling key_cluster tt = refl
classify-spelling key_voter tt = refl
classify-spelling key_nonvoter tt = refl
classify-spelling key_as tt = refl
classify-spelling key_at tt = refl
classify-spelling key_by tt = refl
classify-spelling key_for tt = refl
classify-spelling key_in tt = refl
classify-spelling key_on tt = refl
classify-spelling key_where tt = refl
classify-spelling key_with tt = refl
classify-spelling key_group tt = refl
classify-spelling key_limit tt = refl
classify-spelling key_offset tt = refl
classify-spelling key_join tt = refl
classify-spelling key_between tt = refl
classify-spelling key_duration tt = refl
classify-spelling key_password tt = refl
classify-spelling key_privilege tt = refl

IsLetter-ascii : (w : Text) → All IsLetter w → All (λ c. c < 128) w
IsLetter-ascii [] a = tt
IsLetter-ascii (c ∷ w) (h, a) = (ground arith, IsLetter-ascii w a)

parse_ident-keyword :
    (uni : Unicode) (k : Keyword) (w : Text)
    → All IsLetter w
    → to_upper uni w ≡ spelling k
    → parse_ident uni w ≡ keyword k
unfolding parse_ident
parse_ident-keyword uni k w a e =
    ap (classify w) (ap (to_upper uni) (runes-ascii w (IsLetter-ascii w a)) ∙ e)
    ∙ classify-spelling k w

spelling-nonempty : (k : Keyword) → [] ≢ spelling k
unfolding keyword_of text_eq lookup
spelling-nonempty k e =
    let none_known : ident [] ≡ keyword k = ap (classify []) e ∙ classify-spelling k [] in
    absurd (cc none_known)

-- Behind a space, and before what continues no word, a word of ASCII letters that in capitals is a
-- keyword gives that keyword.
pub lex-keyword :
    (tb : Tables) (s : Scanner) (k : Keyword) (w tail : Text)
    → At s (b' ' ∷ (w ++ tail))
    → All IsLetter w
    → to_upper tb.unicode w ≡ spelling k
    → StartsPlain tail
    → is_ident_rune tb.classes (ahead tail) ≡ false
    → Lexes tb s (keyword k) tail
unfolding to_upper
lex-keyword tb s k [] tail at a e st stop = absurd (spelling-nonempty k e)
lex-keyword tb s k (c ∷ w) tail at (h, a) e st stop =
    lex-word tb s c w tail (keyword k) at h a (parse_ident-keyword tb.unicode k (c ∷ w) (h, a) e) st
      stop

letters : Text → Bool
letters [] = true
letters (c ∷ w) = ((leb b'A' c && leb c b'Z') || (leb b'a' c && leb c b'z')) && letters w

letters-IsLetter : (w : Text) → letters w ≡ true → All IsLetter w
unfolding letters
letters-IsLetter [] e = tt
letters-IsLetter (c ∷ w) e = (ground arith, letters-IsLetter w (ground arith))

capitals_lem :
    (uni : Unicode) (k : Keyword)
    → (letters (spelling k) ≡ true) × (to_upper uni (spelling k) ≡ spelling k)
unfolding spelling to_upper letters
capitals_lem uni key_alter = (refl, refl)
capitals_lem uni key_create = (refl, refl)
capitals_lem uni key_delete = (refl, refl)
capitals_lem uni key_drop = (refl, refl)
capitals_lem uni key_set = (refl, refl)
capitals_lem uni key_select = (refl, refl)
capitals_lem uni key_show = (refl, refl)
capitals_lem uni key_update = (refl, refl)
capitals_lem uni key_user = (refl, refl)
capitals_lem uni key_database = (refl, refl)
capitals_lem uni key_node = (refl, refl)
capitals_lem uni key_cluster = (refl, refl)
capitals_lem uni key_voter = (refl, refl)
capitals_lem uni key_nonvoter = (refl, refl)
capitals_lem uni key_as = (refl, refl)
capitals_lem uni key_at = (refl, refl)
capitals_lem uni key_by = (refl, refl)
capitals_lem uni key_for = (refl, refl)
capitals_lem uni key_in = (refl, refl)
capitals_lem uni key_on = (refl, refl)
capitals_lem uni key_where = (refl, refl)
capitals_lem uni key_with = (refl, refl)
capitals_lem uni key_group = (refl, refl)
capitals_lem uni key_limit = (refl, refl)
capitals_lem uni key_offset = (refl, refl)
capitals_lem uni key_join = (refl, refl)
capitals_lem uni key_between = (refl, refl)
capitals_lem uni key_duration = (refl, refl)
capitals_lem uni key_password = (refl, refl)
capitals_lem uni key_privilege = (refl, refl)

-- A keyword in capitals.
pub lex-spelling :
    (tb : Tables) (s : Scanner) (k : Keyword) (tail : Text)
    → At s (b' ' ∷ (spelling k ++ tail))
    → StartsPlain tail
    → is_ident_rune tb.classes (ahead tail) ≡ false
    → Lexes tb s (keyword k) tail
lex-spelling tb s k tail at st stop =
    let (letter, upper) = capitals_lem tb.unicode k in
    lex-keyword tb s k (spelling k) tail at (letters-IsLetter (spelling k) letter) upper st stop
