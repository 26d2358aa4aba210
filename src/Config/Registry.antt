-- ===== src/Config/Registry.antt =====
-- internal/config/snapshot.go: the setters and the registry of keys.
use Prim.Native.String.{String}
use text.Mathlib.Text.{◌==◌ as str_eq}
use flagfish.Prelude.{
  ◌+◌, Bool, true, false, ◌||◌, Option, none, some, List, [], ◌∷◌, if◌then◌else◌, ◌>>=◌,
}
use flagfish.Prelude.Int.{ℤ, pos, ltb_ℤ}
use flagfish.Policy.Types.{
  Vis, VisKind, challenge, score, account, registration, public, private, admins, hidden, mlc,
  other, parse_vis,
}
use flagfish.Config.{
  Library, Snapshot, WebhookEventSet, parse_portal_view, parse_webhook_event, with_event,
}

-- `setter` applied to a value: `none` is its error
abbrev pub Setter : Type 0
Setter = Snapshot → String → Option Snapshot

-- `boolSetter`
unfoldable pub bool_setter : (Snapshot → Bool → Snapshot) → Setter
bool_setter assign s v =
    if str_eq v "true"
    then some (assign s true)
    else if str_eq v "false"
    then some (assign s false)
    else none

-- `intSetter`
unfoldable pub int_setter : Library → (Snapshot → ℤ → Snapshot) → Setter
int_setter lib assign s v = lib.atoi v >>= λ n. if ltb_ℤ n (pos 0) then none else some (assign s n)

-- `timeSetter`
unfoldable pub time_setter : Library → (Snapshot → Option ℤ → Snapshot) → Setter
time_setter lib assign s v = lib.parse_int v >>= λ secs. some (assign s (some secs))

abbrev pub is_score : VisKind → Bool
is_score score = true
is_score _ = false

abbrev pub is_registration : VisKind → Bool
is_registration registration = true
is_registration _ = false

-- the switch of `visSetter` on the parsed value
unfoldable pub assign_vis : VisKind → (Snapshot → Vis → Snapshot) → Snapshot → Vis → Option Snapshot
assign_vis kind assign s hidden = if is_score kind then some (assign s hidden) else none
assign_vis kind assign s mlc =
    if is_registration kind
    then some (assign (record s { repairs = s.repairs + 1 }) public)
    else none
assign_vis kind assign s public = some (assign s public)
assign_vis kind assign s private = some (assign s private)
assign_vis kind assign s admins = some (assign s admins)
assign_vis kind assign s other = some (assign s other)

-- `visSetter`
unfoldable pub vis_setter : VisKind → (Snapshot → Vis → Snapshot) → Setter
unfolding assign_vis
vis_setter kind assign s v = parse_vis v >>= λ vis. assign_vis kind assign s vis

-- `portalViewSetter`
unfoldable pub portal_view_setter : Setter
unfolding parse_portal_view
portal_view_setter s v = parse_portal_view v >>= λ pv. some (record s { portal_view = pv })

-- `webhookURLSetter`
unfoldable pub webhook_url_setter : Library → Setter
webhook_url_setter lib s v = lib.parse_url v >>= λ u.
    if str_eq u.scheme "http" || str_eq u.scheme "https"
    then if str_eq u.host "" then none else some (record s { webhook_url = v })
    else none

-- the loop of `webhookEventsSetter`
unfoldable pub collect_events : Library → List String → WebhookEventSet → Option WebhookEventSet
unfolding parse_webhook_event
collect_events lib [] set = some set
collect_events lib (tok ∷ toks) set =
    if str_eq (lib.trim_space tok) ""
    then collect_events lib toks set
    else parse_webhook_event (lib.trim_space tok) >>= λ e.
        collect_events lib toks (with_event e set)

-- `webhookEventsSetter`
unfoldable pub webhook_events_setter : Library → Setter
unfolding collect_events
webhook_events_setter lib s v =
    collect_events lib (lib.split v) (record { first_blood = false; solve = false }) >>= λ set.
    some (record s { webhook_events = set })

-- `themeTokensSetter`
unfoldable pub theme_tokens_setter : Library → Setter
theme_tokens_setter lib s v = if lib.is_tokens v then some (record s { theme_tokens = v }) else none

-- the setter of mailfrom_addr
unfoldable pub mail_from_setter : Library → Setter
mail_from_setter lib s v = if lib.is_address v then some (record s { mail_from = v }) else none

-- `keyDef`
pub record KeyDef : Type 0 where
  pub set : Option Setter
  pub secret : Bool
  pub refuses_mlc : Bool

abbrev pub public_key : Setter → KeyDef
public_key set = record { set = some set; secret = false; refuses_mlc = false }

abbrev pub secret_key : Setter → KeyDef
secret_key set = record { set = some set; secret = true; refuses_mlc = false }

pub record Entry : Type 0 where
  pub key : String
  pub def : KeyDef

abbrev pub entry : String → KeyDef → Entry
entry key def = record { key = key; def = def }

-- `registry`
unfoldable pub registry : Library → List Entry
unfolding bool_setter int_setter time_setter vis_setter portal_view_setter webhook_url_setter
    webhook_events_setter theme_tokens_setter mail_from_setter
registry lib =
    entry "ctf_name" (public_key (λ s v. some (record s { ctf_name = v })))
    ∷ entry "ctf_description" (public_key (λ s v. some (record s { ctf_description = v })))
    ∷ entry "ctf_theme" (public_key (λ s v. some (record s { theme = v })))
    ∷ entry "theme_tokens" (public_key (theme_tokens_setter lib))
    ∷ entry "ctf_portal_view" (public_key portal_view_setter)
    ∷ entry "user_mode" (record { set = none; secret = false; refuses_mlc = false })
    ∷ entry "setup" (public_key (bool_setter (λ s b. record s { setup_done = b })))
    ∷ entry "challenge_visibility"
        (public_key (vis_setter challenge (λ s v. record s { challenge_vis = v })))
    ∷ entry "score_visibility" (public_key (vis_setter score (λ s v. record s { score_vis = v })))
    ∷ entry "account_visibility"
        (public_key (vis_setter account (λ s v. record s { account_vis = v })))
    ∷ entry "registration_visibility"
        (record (public_key (vis_setter registration (λ s v. record s { registration_vis = v }))) {
          refuses_mlc = true;
        })
    ∷ entry "verify_emails" (public_key (bool_setter (λ s b. record s { verify_emails = b })))
    ∷ entry "view_after_ctf" (public_key (bool_setter (λ s b. record s { view_after_ctf = b })))
    ∷ entry "paused" (public_key (bool_setter (λ s b. record s { paused = b })))
    ∷ entry "team_creation" (public_key (bool_setter (λ s b. record s { team_creation = b })))
    ∷ entry "start" (public_key (time_setter lib (λ s t. record s { start = t })))
    ∷ entry "end" (public_key (time_setter lib (λ s t. record s { end = t })))
    ∷ entry "freeze" (public_key (time_setter lib (λ s t. record s { freeze = t })))
    ∷ entry "num_users" (public_key (int_setter lib (λ s n. record s { num_users = n })))
    ∷ entry "num_teams" (public_key (int_setter lib (λ s n. record s { num_teams = n })))
    ∷ entry "team_size" (public_key (int_setter lib (λ s n. record s { team_size = n })))
    ∷ entry "mail_server" (secret_key (λ s v. some (record s { mail_server = v })))
    ∷ entry "mail_username" (secret_key (λ s v. some (record s { mail_username = v })))
    ∷ entry "mail_password" (secret_key (λ s v. some (record s { mail_password = v })))
    ∷ entry "mail_port" (public_key (int_setter lib (λ s n. record s { mail_port = n })))
    ∷ entry "mail_tls" (public_key (bool_setter (λ s b. record s { mail_tls = b })))
    ∷ entry "mailfrom_addr" (public_key (mail_from_setter lib))
    ∷ entry "webhook_url" (secret_key (webhook_url_setter lib))
    ∷ entry "webhook_enabled" (public_key (bool_setter (λ s b. record s { webhook_enabled = b })))
    ∷ entry "webhook_events" (public_key (webhook_events_setter lib))
    ∷ []

unfoldable pub find_entry : String → List Entry → Option KeyDef
find_entry key [] = none
find_entry key (e ∷ es) =
    let rest = find_entry key es in if str_eq e.key key then some e.def else rest

-- `registry[key]`
unfoldable pub lookup_key : Library → String → Option KeyDef
unfolding registry find_entry
lookup_key lib key = find_entry key (registry lib)

-- `Secret`
unfoldable pub is_secret : Library → String → Bool
unfolding lookup_key
is_secret lib key = elim (lookup_key lib key) [ none ↦ true | some def ↦ def.secret ]

-- `Modelled`
unfoldable pub is_modelled : Library → String → Bool
unfolding lookup_key
is_modelled lib key = elim (lookup_key lib key) [
  | none ↦ false
  | some def ↦ elim def.set [ none ↦ false | some _ ↦ true ]
]
