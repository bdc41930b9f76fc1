-- ===== src/Query/Ast/Rights.antt =====
-- Who may change the metadata or the cluster through a query.
use mathlib.Core.Path.{subst}
use xuandb.Prelude.{
  ◌≡◌, ◌≢◌, refl, sym, ap, arith, Bool, true, false, ◌⊎◌, inl, inr, [], Option, none, some,
  Option-cases, Bool-cases, if◌then◌else◌,
}
use xuandb.Prelude.Bits.{Includes, bit}
use xuandb.Prelude.Map.{lookup, is_empty}
use xuandb.Prelude.Text.{Text, text_eq, text_eq_iff}
use xuandb.Prelude.Unicode.{to_lower}
use xuandb.Xerrors.{Error}
use xuandb.Meta.Privilege.{privilege_admin, privilege_none}
use xuandb.Meta.Types.{User, Service}
use xuandb.Meta.Handler.{Handled}
use xuandb.Meta.Auth.Spec.{Authorized, Permits, auth_iff}
use xuandb.Query.Run.{Run, returned, panicked, and_then}
use xuandb.Query.ResultSet.{ResultSetWriter}
use xuandb.Query.Ast.{
  Statement, create_user_statement, drop_user_statement, set_password_statement,
  show_user_statement, join_node_statement, drop_node_statement, show_node_statement,
  create_database_statement, drop_database_statement, show_database_statement, Env, State, svc_inst,
  required, reads, auth_statement, execute, global_privilege,
}
use xuandb.Query.Service.{run_statement, query_handler, answered}

-- A user with the admin privilege, or one who changes the password of the user he names himself.
abbrev pub Entitled : Statement → Text → User → Type 0
Entitled stmt name u =
    Includes u.priv privilege_admin
    ⊎ ((password : Text) × (stmt ≡ set_password_statement name password))

-- The user who calls himself `name`, with his password.
abbrev pub KnownUser : Service → (Text → Text) → Text → Text → User → Type 0
KnownUser s lower name pwd u =
    (name ≢ []) × (lookup (lower name) s.md.users ≡ some u) × (u.password ≡ pwd)

-- There are no users yet, or the name and the password are those of an entitled user.
abbrev pub HasRights : Env → State → Text → Text → Statement → Type 0
HasRights env st name pwd stmt =
    (is_empty (svc_inst env st).md.users ≡ true)
    ⊎ ((u : User) × KnownUser (svc_inst env st) (to_lower env.unicode) name pwd u
        × Entitled stmt name u)

-- Statements that only read.
unfoldable pub is_show : Statement → Bool
is_show show_user_statement = true
is_show show_node_statement = true
is_show show_database_statement = true
is_show _ = false

reads_lem :
    (st st' : State) (h : Handled) (r : Run (ResultSetWriter × Option Error))
    → and_then (reads st r) (λ p. returned (answered p)) ≡ returned (st', h)
    → st' ≡ st
unfolding and_then answered
reads_lem st st' h (returned (w, e)) eq = cc
reads_lem st st' h (panicked t) eq = cc

-- A show statement leaves the state.
run_show :
    (env : Env) (st st' : State) (h : Handled) (stmt : Statement)
    → is_show stmt ≡ true
    → run_statement env st stmt none ≡ returned (st', h)
    → st' ≡ st
unfolding is_show run_statement execute
run_show env st st' h show_user_statement show eq = reads_lem st st' h _ eq
run_show env st st' h show_node_statement show eq = reads_lem st st' h _ eq
run_show env st st' h show_database_statement show eq = reads_lem st st' h _ eq
run_show env st st' h _ show eq = ground arith

Permits-admin :
    (u : User) → Permits u (global_privilege privilege_admin) → Includes u.priv privilege_admin
Permits-admin u (inl admin) = λ i b. subst (λ p. bit p i ≡ 1) (sym admin) b
Permits-admin u (inr (global, _)) = global

own_or_admin :
    (name user password : Text) (u : User)
    → Permits u (required (set_password_statement user password) name)
    → (own : Bool) → text_eq name user ≡ own
    → Entitled (set_password_statement user password) name u
unfolding required
own_or_admin name user password u p true e =
    inr (password, ap (λ n. set_password_statement n password) (sym ((text_eq_iff name user).0 e)))
own_or_admin name user password u p false e = inl (
    Permits-admin u (
      subst (λ b. Permits u (global_privilege (if b then privilege_none else privilege_admin))) e
        p))

admin_or_own :
    (stmt : Statement) (name : Text) (u : User)
    → is_show stmt ≡ false
    → Permits u (required stmt name)
    → Entitled stmt name u
unfolding is_show required
admin_or_own (create_user_statement v) name u show p = inl (Permits-admin u p)
admin_or_own (drop_user_statement v) name u show p = inl (Permits-admin u p)
admin_or_own (join_node_statement id addr voter) name u show p = inl (Permits-admin u p)
admin_or_own (drop_node_statement id) name u show p = inl (Permits-admin u p)
admin_or_own (create_database_statement db) name u show p = inl (Permits-admin u p)
admin_or_own (drop_database_statement db) name u show p = inl (Permits-admin u p)
admin_or_own (set_password_statement user password) name u show p =
    own_or_admin name user password u p (text_eq name user) refl
admin_or_own show_user_statement name u show p = absurd (cc show)
admin_or_own show_node_statement name u show p = absurd (cc show)
admin_or_own show_database_statement name u show p = absurd (cc show)

parse-cases :
    (r : Text ⊎ Statement) → ((msg : Text) × (r ≡ inl msg)) ⊎ ((stmt : Statement) × (r ≡ inr stmt))
parse-cases (inl msg) = inl (msg, refl)
parse-cases (inr stmt) = inr (stmt, refl)

rights :
    (env : Env) (st : State) (stmt : Statement) (name pwd : Text)
    → is_show stmt ≡ false
    → Authorized env.unicode (svc_inst env st) name pwd (required stmt name)
    → HasRights env st name pwd stmt
rights env st stmt name pwd show (inl empty) = inl empty
rights env st stmt name pwd show (inr (named, (u, known, pass, permits))) =
    inr (u, (named, known, pass), admin_or_own stmt name u show permits)

run_cases :
    (env : Env) (st st' : State) (h : Handled) (stmt : Statement) (name pwd : Text)
    → run_statement env st stmt (auth_statement env st stmt name pwd) ≡ returned (st', h)
    → (st' ≡ st) ⊎ HasRights env st name pwd stmt
unfolding run_statement auth_statement
run_cases env st st' h stmt name pwd eq =
    elim (Option-cases (auth_statement env st stmt name pwd)) [
      | inl ok ↦ elim (Bool-cases (is_show stmt)) [
        | inl show ↦ inl (
            run_show env st st' h stmt show
              (subst (λ o. run_statement env st stmt o ≡ returned (st', h)) ok eq))
        | inr show ↦ inr (
            rights env st stmt name pwd show
              ((auth_iff env.unicode (svc_inst env st) name pwd (required stmt name)).0 ok))
      ]
      | inr (e, refused) ↦
          inl (cc (subst (λ o. run_statement env st stmt o ≡ returned (st', h)) refused eq))
    ]

-- A query that changes anything is a statement of an admin, or a user's change of the password
-- of the name that he gave; he is known and gave his password, or there are no users yet.
pub query_handler-Entitled :
    (env : Env) (st st' : State) (h : Handled) (parse : Text → Text ⊎ Statement) (q name pwd : Text)
    → query_handler env st parse q name pwd ≡ returned (st', h)
    → (st' ≡ st) ⊎ ((stmt : Statement) × (parse q ≡ inr stmt) × HasRights env st name pwd stmt)
unfolding query_handler
query_handler-Entitled env st st' h parse q name pwd eq = elim (Bool-cases (text_eq q [])) [
  | inl empty ↦ inl (ground arith)
  | inr some_text ↦ elim (parse-cases (parse q)) [
    | inl (msg, e) ↦ inl (ground arith)
    | inr (stmt, e) ↦ elim (run_cases env st st' h stmt name pwd (ground arith)) [
      | inl same ↦ inl same
      | inr rights ↦ inr (stmt, e, rights)
    ]
  ]
]
