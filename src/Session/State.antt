-- ===== src/Session/State.antt =====
-- proxy.go: the session fields of `appHost`, over a keyring and a configuration store that may fail.
use soha_app.Base.{
  ℕ, suc, String, Bool, true, false, Option, none, some, List, [], ◌∷◌, ◌==◌, str_eq, if◌then◌else◌,
}

-- A `*url.URL`: the code compares the pointers, which `handle` stands for.
pub record Target : Type 0 where
  pub handle : ℕ
  pub url : String
  pub secure : Bool

-- What config.Save wrote last.
pub record Saved : Type 0 where
  pub server_url : String
  pub credentials_blocked : Bool

pub record Credential : Type 0 where
  pub account : String
  pub token : String

-- `clock` counts the calls of the keyring and of the configuration store.
pub record Host : Type 0 where
  pub target : Target
  pub blocked : Bool
  pub source : String
  pub pending : Option Target
  pub pending_code : String
  pub stored : List Credential
  pub saved : Option Saved
  pub clock : ℕ

-- Which parts the host was built with, which of its calls fail, and which saves that fail have replaced
-- the file.
pub record Environment : Type 0 where
  pub has_keyring : Bool
  pub has_config : Bool
  pub fails : ℕ → Bool
  pub replaces : ℕ → Bool

unfoldable pub same_target : Target → Target → Bool
same_target a b = a.handle == b.handle

-- The keyring's documented behaviour, as a list with one entry for an account.
unfoldable pub lookup : String → List Credential → Option String
lookup account [] = none
lookup account (c ∷ cs) =
    let rest = lookup account cs in if str_eq c.account account then some c.token else rest

unfoldable pub remove : String → List Credential → List Credential
remove account [] = []
remove account (c ∷ cs) =
    let rest = remove account cs in if str_eq c.account account then rest else c ∷ rest

unfoldable pub store : String → String → List Credential → List Credential
unfolding remove
store account token cs = record { account = account; token = token } ∷ remove account cs

pub data Read : Type 0 where
  found : String → Read
  missing unreadable : Read

abbrev pub read_of : Option String → Read
read_of none = missing
read_of (some token) = found token

module _ (env : Environment) where
  abbrev pub tick : Host → Host
  tick h = record h { clock = suc h.clock }

  -- keyring.Get
  unfoldable pub keyring_get : String → Host → Read × Host
  keyring_get account h =
      (if env.fails h.clock then unreadable else read_of (lookup account h.stored), tick h)

  -- keyring.Set, and whether it worked
  unfoldable pub keyring_set : String → String → Host → Bool × Host
  keyring_set account token h =
      if env.fails h.clock
      then (false, tick h)
      else (true, record (tick h) { stored = store account token h.stored })

  -- keyring.Delete, whose error is only logged
  unfoldable pub keyring_delete : String → Host → Host
  keyring_delete account h =
      if env.fails h.clock then tick h else record (tick h) { stored = remove account h.stored }

  -- config.Save, and whether it worked; it can fail after it has replaced the file.
  unfoldable pub save_config : String → Bool → Host → Bool × Host
  save_config url blocked h =
      let saved : Saved = record { server_url = url; credentials_blocked = blocked } in
      if env.fails h.clock
      then (false, if env.replaces h.clock then record (tick h) { saved = some saved } else tick h)
      else (true, record (tick h) { saved = some saved })
