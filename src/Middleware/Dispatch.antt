-- ===== src/Middleware/Dispatch.antt =====
-- How a message becomes the call of a handler (`dispatchCommand` in
-- lib/middleware/handle.go, and `CanUse` of lib/constant/role.go). What kong makes of declared
-- arguments is left out, and so are the hooks for a refused or failed command.
use mathlib.Core.Path.{subst}
use polarix_plus.Base.{
  if◌then◌else◌, fields, Text, codes, text_eq, is_empty, ◌≡◌, refl, Bool, true, false, not, ◌&&◌,
  ◌||◌, Option, none, some, List, [], ◌∷◌, arith,
}
use polarix_plus.Plugin.{Command, plugin_of, options_of, Index, Registry}
use polarix_plus.Plugin.Access.{enabled, can_use}
use polarix_plus.Plugin.Resolve.{resolve_root, resolve}

-- `CanUse` of a role
unfoldable pub role_allows : Text → Text → Bool
unfolding text_eq
role_allows need user =
    if is_empty need
    then true
    else if text_eq need (codes "owner")
    then text_eq user (codes "owner")
    else if text_eq need (codes "admin")
    then text_eq user (codes "admin") || text_eq user (codes "owner")
    else true

-- who sent a message, and where
pub record Sender : Type 0 where
  pub user : Text
  pub group : Text  -- empty in a private message
  pub role : Text
  pub check_private : Bool

-- `Invocation`: the root command, the command reached, its path and the words left. It is the root
-- whose `Handle` is called; the other one has the hooks and the declared arguments.
pub record Invocation : Type 0 where
  pub root : Command
  pub leaf : Command
  pub path : Text
  pub rest : List Text

pub data Verdict : Type 0 where
  ignored : Verdict
  panicked : Verdict
  denied : Command → Verdict
  invoked : Invocation → Verdict

-- the first command that the sender may not use
unfoldable pub refused : Sender → Registry → Invocation → Option Bool → Verdict
unfolding role_allows
refused s r v none = panicked
refused s r v (some allowed) =
    if not (role_allows (options_of v.root).role s.role)
    then denied v.root
    else if not (role_allows (options_of v.leaf).role s.role)
    then denied v.leaf
    else if s.check_private
        && ((options_of v.root).disable_private || (options_of v.leaf).disable_private)
    then denied v.leaf
    else if not allowed
    then denied v.leaf
    else invoked v

-- the rest of `dispatchCommand` behind the root command found
unfoldable pub dispatch_root :
    List Text → Sender → Registry → Option (Command × List Text) → Verdict
unfolding refused enabled resolve can_use
dispatch_root ps s r none = ignored
dispatch_root ps s r (some (root, after)) =
    let out = resolve ps root after in
    let v : Invocation = record { root = root; leaf = out.0; path = out.1.0; rest = out.1.1 } in
    let allowed = can_use (plugin_of root) out.1.0 s.user s.group r in
    if not (enabled (plugin_of root) r) then ignored else refused s r v allowed

-- Until the first `Register` the snapshot is nil, and reading it panics; here any words do.
abbrev dispatch_index : List Text → Sender → List Text → Registry → Option Index → Verdict
dispatch_index ps s tokens r none = panicked
dispatch_index ps s tokens r (some ix) = dispatch_root ps s r (resolve_root ix ps tokens)

-- `dispatchCommand` on the words of a message
dispatch_tokens : List Text → Sender → Registry → List Text → Verdict
unfolding dispatch_root resolve_root
dispatch_tokens ps s r [] = ignored
dispatch_tokens ps s r (t ∷ ts) = dispatch_index ps s (t ∷ ts) r r.index

unfoldable pub dispatch_command : List Text → Sender → Registry → Text → Verdict
unfolding dispatch_tokens fields
dispatch_command ps s r content = dispatch_tokens ps s r (fields content)

-- what a handler that is called may rely on
pub record IsAuthorized (s : Sender) (r : Registry) (v : Invocation) : Type 0 where
  pub plugin_on : enabled (plugin_of v.root) r ≡ true
  pub root_role : role_allows (options_of v.root).role s.role ≡ true
  pub leaf_role : role_allows (options_of v.leaf).role s.role ≡ true
  pub private_ok :
      (s.check_private
        && ((options_of v.root).disable_private || (options_of v.leaf).disable_private))
      ≡ false
  pub access : can_use (plugin_of v.root) v.path s.user s.group r ≡ some true

invoked_inj : {v w : Invocation} → invoked v ≡ invoked w → v ≡ w
invoked_inj e = cc

-- the checks that were passed
pub record Passed (s : Sender) (v : Invocation) : Type 0 where
  pub root_role : role_allows (options_of v.root).role s.role ≡ true
  pub leaf_role : role_allows (options_of v.leaf).role s.role ≡ true
  pub private_ok :
      (s.check_private
        && ((options_of v.root).disable_private || (options_of v.leaf).disable_private))
      ≡ false

refused-Passed :
    (s : Sender) (r : Registry) (v : Invocation) (o : Option Bool) {w : Invocation}
    → refused s r v o ≡ invoked w
    → (v ≡ w) × Passed s v × (o ≡ some true)
unfolding refused
refused-Passed s r v none h = cc
refused-Passed s r v (some allowed) h = (
  ground arith,
  record { root_role = ground arith; leaf_role = ground arith; private_ok = ground arith },
  ground arith,
)

unless_ignored :
    (b : Bool) (x : Verdict) {v : Invocation}
    → (if b then ignored else x) ≡ invoked v
    → (b ≡ false) × (x ≡ invoked v)
unless_ignored true x h = cc
unless_ignored false x h = (refl, h)

dispatch_root-IsAuthorized :
    (ps : List Text) (s : Sender) (r : Registry) (o : Option (Command × List Text)) {v : Invocation}
    → dispatch_root ps s r o ≡ invoked v
    → IsAuthorized s r v
unfolding dispatch_root
dispatch_root-IsAuthorized ps s r none h = cc
dispatch_root-IsAuthorized ps s r (some (root, after)) h =
    let out = resolve ps root after in
    let start : Invocation = record { root = root; leaf = out.0; path = out.1.0; rest = out.1.1 } in
    let (on, rest) = unless_ignored (not (enabled (plugin_of root) r)) _ h in
    let (same, passed, allowed) =
      refused-Passed s r start (can_use (plugin_of root) out.1.0 s.user s.group r) rest in
    subst (IsAuthorized s r) same (record {
      plugin_on = ground arith;
      root_role = passed.root_role;
      leaf_role = passed.leaf_role;
      private_ok = passed.private_ok;
      access = allowed;
    })

dispatch_index-IsAuthorized :
    (ps : List Text) (s : Sender) (tokens : List Text) (r : Registry) (o : Option Index)
    {v : Invocation}
    → dispatch_index ps s tokens r o ≡ invoked v
    → IsAuthorized s r v
dispatch_index-IsAuthorized ps s tokens r none h = cc
dispatch_index-IsAuthorized ps s tokens r (some ix) h =
    dispatch_root-IsAuthorized ps s r (resolve_root ix ps tokens) h

dispatch_tokens-IsAuthorized :
    (ps : List Text) (s : Sender) (r : Registry) (tokens : List Text) {v : Invocation}
    → dispatch_tokens ps s r tokens ≡ invoked v
    → IsAuthorized s r v
unfolding dispatch_tokens
dispatch_tokens-IsAuthorized ps s r [] h = cc
dispatch_tokens-IsAuthorized ps s r (t ∷ ts) h =
    dispatch_index-IsAuthorized ps s (t ∷ ts) r r.index h

-- When a message leads to the call of a handler, the plugin is enabled, the sender's role is enough
-- for the root command and for the sub-command, neither refuses private messages if it is one, and
-- the access rules of the plugin allow the command's path to the sender.
pub dispatch_command-IsAuthorized :
    (ps : List Text) (s : Sender) (r : Registry) (content : Text) {v : Invocation}
    → dispatch_command ps s r content ≡ invoked v
    → IsAuthorized s r v
unfolding dispatch_command
dispatch_command-IsAuthorized ps s r content h =
    dispatch_tokens-IsAuthorized ps s r (fields content) h
