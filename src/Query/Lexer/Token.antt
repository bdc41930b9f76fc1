-- ===== src/Query/Lexer/Token.antt =====
-- The tokens of pkg/query/parser/lexer.go, as sql.y declares them, and its keywords. In
-- the source a token is an int, and `Lex` gives a character's own code: there a NUL reads as the end,
-- and a character from U+E002 on can have the number of another token. The model keeps them apart.
use xuandb.Prelude.{ℕ, Bool, [], ◌∷◌, Option}
use xuandb.Prelude.Map.{Map, lookup}
use xuandb.Prelude.Text.{Text, codes}

-- The tokens OP_….
pub data Operator : Type 0 where
  op_or op_xor op_and op_not : Operator
  op_equ op_not_equ op_gt op_gte op_lt op_lte op_match op_not_match : Operator
  op_bitwise_or op_bitwise_and op_bitwise_xor op_bitwise_not op_lshift op_rshift : Operator
  op_add op_sub op_mul op_div op_mod : Operator

pub data Keyword : Type 0 where
  key_alter key_create key_delete key_drop key_set key_select key_show key_update : Keyword
  key_user key_database key_node key_cluster key_voter key_nonvoter : Keyword
  key_as key_at key_by key_for key_in key_on key_where key_with : Keyword
  key_group key_limit key_offset key_join key_between key_duration key_password : Keyword
  key_privilege : Keyword

-- The order of the declarations, in which `init` numbers the keywords.
unfoldable pub index : Keyword → ℕ
index key_alter = 0
index key_create = 1
index key_delete = 2
index key_drop = 3
index key_set = 4
index key_select = 5
index key_show = 6
index key_update = 7
index key_user = 8
index key_database = 9
index key_node = 10
index key_cluster = 11
index key_voter = 12
index key_nonvoter = 13
index key_as = 14
index key_at = 15
index key_by = 16
index key_for = 17
index key_in = 18
index key_on = 19
index key_where = 20
index key_with = 21
index key_group = 22
index key_limit = 23
index key_offset = 24
index key_join = 25
index key_between = 26
index key_duration = 27
index key_password = 28
index key_privilege = 29

-- What `Lex` returns, with the field of `yySymType` that goes with it. A float is its 64 bits. A
-- character that is no operator is its own token, and `end_token` is the 0 of the end.
pub data Token : Type 0 where
  end_token : Token
  ident : Text → Token
  keyword : Keyword → Token
  op : Operator → Token
  val_str : Text → Token
  val_int : ℕ → Token
  val_duration : ℕ → Token
  val_flt : ℕ → Token
  val_bool : Bool → Token
  err_token : Text → Token
  char : ℕ → Token

-- `keywords` of sql.y, after `init` has put in the names of the tokens.
abbrev pub keywords : Map Token
keywords =
    (codes "DIV", op op_div)
    ∷ (codes "MOD", op op_mod)
    ∷ (codes "AND", op op_and)
    ∷ (codes "OR", op op_or)
    ∷ (codes "XOR", op op_xor)
    ∷ (codes "NOT", op op_not)
    ∷ (codes "LIKE", op op_match)
    ∷ (codes "ALTER", keyword key_alter)
    ∷ (codes "CREATE", keyword key_create)
    ∷ (codes "DELETE", keyword key_delete)
    ∷ (codes "DROP", keyword key_drop)
    ∷ (codes "SET", keyword key_set)
    ∷ (codes "SELECT", keyword key_select)
    ∷ (codes "SHOW", keyword key_show)
    ∷ (codes "UPDATE", keyword key_update)
    ∷ (codes "USER", keyword key_user)
    ∷ (codes "DATABASE", keyword key_database)
    ∷ (codes "NODE", keyword key_node)
    ∷ (codes "CLUSTER", keyword key_cluster)
    ∷ (codes "VOTER", keyword key_voter)
    ∷ (codes "NONVOTER", keyword key_nonvoter)
    ∷ (codes "AS", keyword key_as)
    ∷ (codes "AT", keyword key_at)
    ∷ (codes "BY", keyword key_by)
    ∷ (codes "FOR", keyword key_for)
    ∷ (codes "IN", keyword key_in)
    ∷ (codes "ON", keyword key_on)
    ∷ (codes "WHERE", keyword key_where)
    ∷ (codes "WITH", keyword key_with)
    ∷ (codes "GROUP", keyword key_group)
    ∷ (codes "LIMIT", keyword key_limit)
    ∷ (codes "OFFSET", keyword key_offset)
    ∷ (codes "JOIN", keyword key_join)
    ∷ (codes "BETWEEN", keyword key_between)
    ∷ (codes "DURATION", keyword key_duration)
    ∷ (codes "PASSWORD", keyword key_password)
    ∷ (codes "PRIVILEGE", keyword key_privilege)
    ∷ []

unfoldable pub keyword_of : Text → Option Token
keyword_of word = lookup word keywords
