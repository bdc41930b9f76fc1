-- ===== src/Query/Tests.antt =====
-- Runs of queries, and instances of the theorems about them.
use xuandb.Prelude.{ℕ, Bool, true, false, [], ◌∷◌, ◌++◌, arith, List, ◌≡◌, ◌⊎◌, inr, refl, none}
use xuandb.Prelude.Map.{is_empty, lookup, insert, values}
use xuandb.Prelude.Text.{Text, codes, text_eq}
use xuandb.Prelude.Unicode.{ascii, to_lower}
use xuandb.Meta.Types.{new_service}
use xuandb.Meta.Handler.{Reply, replied}
use xuandb.Xerrors.{wrap}
use xuandb.Meta.Auth.{auth}
use xuandb.Meta.Client.{create_database, on_leader}
use xuandb.Meta.Apply.{apply_command, apply_create_database}
use xuandb.Meta.Leader.{
  committed, leader_create_database, check_create_database, submit, raft_apply, command_via_json,
}
use xuandb.Meta.Node.Listing.{state_at}
use xuandb.Meta.Privilege.{to_string}
use xuandb.Meta.Node.{role_to_string}
use xuandb.Utils.Duration.{emit}
use xuandb.Query.Run.{returned, and_then}
use xuandb.Query.Value.{
  Value, uint, string, bool, time, duration, write_value, quote, quote_runes, quote_rune, is_print,
  format_uint,
}
use xuandb.Query.ResultSet.{flush, is_nil}
use xuandb.Query.ResultSet.Json.{
  layout, values_field, arrays, array, quotes, value_texts, value_text, commas, each_after_comma,
}
use xuandb.Query.Ast.{
  Statement, create_database_statement, show_user_statement, show_node_statement,
  show_database_statement, Env, State, svc_inst, auth_statement, execute, to_int64, unix_nano,
  state_to_string,
}
use xuandb.Query.Ast.Rights.{HasRights, query_handler-Entitled}
use xuandb.Query.Ast.Listed.{Lists, shows-Lists}
use xuandb.Query.Ast.Shows.{query_handler_total}
use xuandb.Query.Lexer.{
  unescaped, quote_inside, out_of_range, unescape, unescape_loop, read_rune, unescape_rune,
  decode_digits, decode_loop, digit_val, lower, write_rune, invalid_rune, is_last, prepend,
}
use xuandb.Query.Lexer.RoundTrip.{unescape-quote}
use xuandb.Query.Lexer.Total.{unescape_total}
use xuandb.Query.Service.{run_statement, query_handler, answered, answer}

abbrev all_printable : ℕ → Bool
all_printable c = true

abbrev pub env : Env
env = record {
  unicode = ascii;
  printable = all_printable;
  raft_answer = committed;
  raft = λ call. none;
  caller = record { is_leader = true; leader_http_addr = codes "l:1"; transport = none };
  server = record { cluster_name = codes "xuan"; is_leader = true };
  cluster_name = codes "xuan";
  now = 7;
  leader_id = codes "a";
  replica = new_service;
}

abbrev pub start : State
start = record { leader = new_service; calls = [] }

-- A parser of one statement.
abbrev parse_one : Text → Text ⊎ Statement
parse_one q = inr (create_database_statement (record { name = codes "db"; duration = 60 }))

abbrev row : List Value
row = string (codes "a") ∷ uint 5 ∷ []

layout_run :
    layout all_printable (codes "x" ∷ codes "y" ∷ []) (row ∷ [])
    ≡ codes "{\"columns\":[\"x\",\"y\"],\"values\":[[\"a\",5]]}"
unfolding layout values_field arrays array quotes value_texts value_text commas each_after_comma
    quote quote_runes quote_rune is_print write_value format_uint emit
layout_run = refl

abbrev changed : State
changed = record {
  leader = record new_service {
    md = record {
      users = [];
      databases = (codes "db", record { name = codes "db"; duration = 60 }) ∷ [];
    };
  };
  calls = [];
}

query_run :
    query_handler env start parse_one (codes "create …") [] []
    ≡ returned (changed, replied (record { code = 204; text = [] }))
unfolding query_handler text_eq auth_statement auth svc_inst is_empty run_statement execute
    create_database on_leader leader_create_database check_create_database lookup to_lower submit
    raft_apply command_via_json apply_command apply_create_database insert wrap and_then answered
    answer flush is_nil
query_run = refl

query_handler-Entitled_example :
    (changed ≡ start)
    ⊎ ((stmt : Statement) × (parse_one (codes "create …") ≡ inr stmt)
        × HasRights env start [] [] stmt)
query_handler-Entitled_example =
    query_handler-Entitled env start changed (replied (record { code = 204; text = [] })) parse_one
      (codes "create …") [] [] query_run

query_handler_total_example :
    (st : State) × (r : Reply) × (query_handler env start parse_one (codes "create …") [] []
      ≡ returned (st, replied r))
query_handler_total_example = query_handler_total env start parse_one (codes "create …") [] []

shows-Lists_example :
    Lists env start show_user_statement
      (codes "name" ∷ codes "isSystem" ∷ codes "privileges" ∷ [])
      (λ u. u.name)
      (λ u. string u.name ∷ bool u.system ∷ string (to_string u.priv) ∷ [])
      (values (svc_inst env start).md.users)
    × Lists env start show_node_statement
        (codes "id"
          ∷ codes "addr"
          ∷ codes "role"
          ∷ codes "heartbeatTime"
          ∷ codes "isLeader"
          ∷ codes "state"
          ∷ [])
        (λ ni. ni.id)
        (λ ni.
          string ni.id
          ∷ string ni.addr
          ∷ string (role_to_string ni.role)
          ∷ time (unix_nano ni.last_heartbeat_time)
          ∷ bool (text_eq ni.id env.leader_id)
          ∷ string (state_to_string (state_at env.now ni.last_heartbeat_time))
          ∷ [])
        (values (svc_inst env start).nodes)
    × Lists env start show_database_statement
        (codes "name" ∷ codes "duration" ∷ [])
        (λ db. db.name)
        (λ db. string db.name ∷ duration (to_int64 db.duration) ∷ [])
        (values (svc_inst env start).md.databases)
shows-Lists_example = shows-Lists env start

abbrev any_table : ℕ → Bool
any_table c = false

unescape_runs :
    (unescape (codes "'a\\x41\\101\\q'") b'\''
      ≡ unescaped (codes "aAA" ++ 239 ∷ 191 ∷ 189 ∷ codes "q"))
    × (unescape (codes "'a'b") b'\'' ≡ quote_inside)
    × (unescape (codes "'a\\u00e9") b'\'' ≡ unescaped (b'a' ∷ 195 ∷ 169 ∷ []))
unfolding unescape unescape_loop read_rune unescape_rune decode_digits decode_loop digit_val lower
    write_rune invalid_rune is_last prepend
unescape_runs = (refl, refl, refl)

unescape-quote_example :
    unescape (quote any_table (codes "a\"b" ++ 27 ∷ 9 ∷ [])) b'"'
    ≡ unescaped (codes "a\"b" ++ 27 ∷ 9 ∷ [])
unescape-quote_example = unescape-quote any_table (codes "a\"b" ++ 27 ∷ 9 ∷ []) (ground arith)

unescape_total_example :
    ((t : Text) × (unescape (codes "'a\\x4'") b'\'' ≡ unescaped t))
    ⊎ (unescape (codes "'a\\x4'") b'\'' ≡ quote_inside)
    ⊎ ((codes "'a\\x4'" ≡ []) × (unescape (codes "'a\\x4'") b'\'' ≡ out_of_range))
unescape_total_example = unescape_total (codes "'a\\x4'") b'\''
