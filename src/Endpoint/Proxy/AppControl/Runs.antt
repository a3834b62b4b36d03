-- ===== src/Endpoint/Proxy/AppControl/Runs.antt =====
-- mihomo.go: runs of the coordinated executor, its operations in any order.
use soha_app.Base.{String, true, false, Option, none, some, ◌∷◌, arith, refl}
use soha_app.Base.Errors.{Error}
use soha_app.Endpoint.Protocol.{ConfigurationDesired, MihomoConfiguration, Time}
use soha_app.Endpoint.Proxy.State.{
  ConfigurationExecutor, ExecutorLaws, CoordinatedExecutor, MihomoAppState, MihomoRuntime,
  new_coordinated, state_removed,
}
use soha_app.Endpoint.Proxy.Coordination.{disable_proxy, save_app_state}
use soha_app.Endpoint.Proxy.Coordination.Invariant.{
  IsCoordinated, IsOrdered, Remembers, apply_app_state-IsCoordinated, save_app_state-IsCoordinated,
}
use soha_app.Endpoint.Proxy.Operations.{
  apply_coordinated, disable_coordinated, load_app_state, verify_coordinated,
}
use soha_app.Endpoint.Proxy.Operations.Order.{
  apply_coordinated-Reported, disable_coordinated-IsCoordinated, verify_coordinated-Reported,
}
use soha_app.Endpoint.Proxy.AppControl.{
  app_configuration, clear_app, clear_unsaved, clear_with, configure_app, configure_with, drop_app,
  loaded_state, refresh_app, refresh_with, select_app, select_with,
}

module _ (r : MihomoRuntime) {W : Type 0} (tunnel : ConfigurationExecutor W)
    (laws : ExecutorLaws tunnel) where
  pub data Step (e : CoordinatedExecutor W) : CoordinatedExecutor W → Type 0 where
    applies :
        (desired : ConfigurationDesired) (now : Time)
        → Step e (apply_coordinated r tunnel desired now e).1
    verifies :
        (desired : ConfigurationDesired) (now : Time)
        → Step e (verify_coordinated r tunnel desired now e).1
    disables : Step e (disable_coordinated r tunnel e).1
    configures : (url : String) → Step e (configure_app r tunnel url e).1
    selects : (proxy : String) → Step e (select_app r tunnel proxy e).1
    refreshes : Step e (refresh_app r tunnel e).1
    clears : Step e (clear_app r tunnel e).1

  pub data Run (e : CoordinatedExecutor W) : CoordinatedExecutor W → Type 0 where
    starts : Run e e
    next : {f g : CoordinatedExecutor W} → Run e f → Step f g → Run e g

  configure_with-IsCoordinated :
      (url : String) (c : Option MihomoConfiguration) (e : CoordinatedExecutor W)
      → IsCoordinated r tunnel laws e
      → IsCoordinated r tunnel laws (configure_with r tunnel url c e).1
  unfolding configure_with
  configure_with-IsCoordinated url none e k = k
  configure_with-IsCoordinated url (some c) e k =
      let state : MihomoAppState = record {
        cleared = false;
        version = 1;
        profile_id = c.profile_id;
        profile_revision = c.profile_revision;
        subscription_url = url;
        selected_proxy = "";
      } in
      ground (arith, apply_app_state-IsCoordinated r tunnel laws c state e k)

  loaded_state-IsCoordinated :
      (c : Option MihomoConfiguration) (e : CoordinatedExecutor W)
      → IsCoordinated r tunnel laws e
      → IsCoordinated r tunnel laws (loaded_state r tunnel c e).1
  unfolding loaded_state load_app_state
  loaded_state-IsCoordinated none e k = k
  loaded_state-IsCoordinated (some c) e k = ground arith

  select_with-IsCoordinated :
      (proxy : String) (loaded : Option (MihomoConfiguration × MihomoAppState))
      (e : CoordinatedExecutor W)
      → IsCoordinated r tunnel laws e
      → IsCoordinated r tunnel laws (select_with r tunnel proxy loaded e).1
  unfolding select_with
  select_with-IsCoordinated proxy none e k = k
  select_with-IsCoordinated proxy (some (c, state)) e k =
      let chosen = record state { selected_proxy = proxy } in
      ground (arith, apply_app_state-IsCoordinated r tunnel laws c chosen e k)

  refresh_with-IsCoordinated :
      (loaded : Option (MihomoConfiguration × MihomoAppState)) (e : CoordinatedExecutor W)
      → IsCoordinated r tunnel laws e
      → IsCoordinated r tunnel laws (refresh_with r tunnel loaded e).1
  unfolding refresh_with
  refresh_with-IsCoordinated none e k = k
  refresh_with-IsCoordinated (some (c, state)) e k =
      apply_app_state-IsCoordinated r tunnel laws c state e k

  drop_app-IsCoordinated :
      (c : MihomoConfiguration) (e : CoordinatedExecutor W)
      → IsCoordinated r tunnel laws e
      → IsCoordinated r tunnel laws (drop_app r tunnel c e).1
  unfolding drop_app disable_proxy
  drop_app-IsCoordinated c e k = ground arith

  clear_unsaved-IsCoordinated :
      (c : MihomoConfiguration) (err : Error) (e : CoordinatedExecutor W)
      → IsCoordinated r tunnel laws e
      → IsCoordinated r tunnel laws (clear_unsaved r tunnel c err e).1
  unfolding clear_unsaved
  clear_unsaved-IsCoordinated c err e k =
      let e1 : CoordinatedExecutor W = record e {
        exchanges = state_removed (r.remove_state e.exchanges) ∷ e.exchanges;
      } in
      let k1 : IsCoordinated r tunnel laws e1 = ground arith in drop_app-IsCoordinated c e1 k1

  clear_with-IsCoordinated :
      (c : Option MihomoConfiguration) (e : CoordinatedExecutor W)
      → IsCoordinated r tunnel laws e
      → IsCoordinated r tunnel laws (clear_with r tunnel c e).1
  unfolding clear_with
  clear_with-IsCoordinated none e k = k
  clear_with-IsCoordinated (some c) e k =
      let cleared : MihomoAppState = record {
        cleared = true;
        version = 1;
        profile_id = c.profile_id;
        profile_revision = c.profile_revision;
        subscription_url = "";
        selected_proxy = "";
      } in
      let pending = record e { app_clear_pending = true } in
      let saved = save_app_state r tunnel cleared pending in
      let kp : IsCoordinated r tunnel laws pending = record {
        ordered = k.ordered;
        active = k.active;
        remembered = k.remembered;
        alone = k.alone;
        holds = k.holds;
      } in
      let k1 = save_app_state-IsCoordinated r tunnel laws cleared pending kp in
      ground (
        arith,
        drop_app-IsCoordinated c saved.1 k1,
        clear_unsaved-IsCoordinated c saved.0 saved.1 k1,
      )

  Step-IsCoordinated :
      {e f : CoordinatedExecutor W}
      → Step e f
      → IsCoordinated r tunnel laws e
      → IsCoordinated r tunnel laws f
  unfolding configure_app select_app refresh_app clear_app
  Step-IsCoordinated {e} (applies desired now) k =
      (apply_coordinated-Reported r tunnel laws desired now e k).0
  Step-IsCoordinated {e} (verifies desired now) k =
      (verify_coordinated-Reported r tunnel laws desired now e k).0
  Step-IsCoordinated {e} disables k = disable_coordinated-IsCoordinated r tunnel laws e k
  Step-IsCoordinated {e} (configures url) k =
      configure_with-IsCoordinated url (app_configuration r tunnel e) e k
  Step-IsCoordinated {e} (selects proxy) k =
      let loaded = loaded_state r tunnel (app_configuration r tunnel e) e in
      select_with-IsCoordinated proxy loaded.0 loaded.1
        (loaded_state-IsCoordinated (app_configuration r tunnel e) e k)
  Step-IsCoordinated {e} refreshes k =
      let loaded = loaded_state r tunnel (app_configuration r tunnel e) e in
      refresh_with-IsCoordinated loaded.0 loaded.1
        (loaded_state-IsCoordinated (app_configuration r tunnel e) e k)
  Step-IsCoordinated {e} clears k = clear_with-IsCoordinated (app_configuration r tunnel e) e k

  new_coordinated-IsCoordinated :
      (w : W) → laws.Holds w → IsCoordinated r tunnel laws (new_coordinated w)
  new_coordinated-IsCoordinated w h = record {
    holds = h;
    ordered = tt;
    active = refl;
    remembered = tt;
    alone = λ no. tt;
  }

  pub Run-IsCoordinated :
      {w : W} {e : CoordinatedExecutor W}
      → laws.Holds w
      → Run (new_coordinated w) e
      → IsCoordinated r tunnel laws e
  Run-IsCoordinated {w} h starts = new_coordinated-IsCoordinated w h
  Run-IsCoordinated h (next run step) = Step-IsCoordinated step (Run-IsCoordinated h run)

  -- No direct connection survives a change of the tunnel's routes. In every run of the coordinated
  -- executor, whatever its surroundings answer, the tunnel was applied and disabled only while no policy
  -- was in force at the proxy; and the policy that is remembered, if any, is the last one that the proxy
  -- was given and confirmed, with no disable since; and what the tunnel's executor keeps still holds of it.
  pub Run-IsOrdered :
      {w : W} {e : CoordinatedExecutor W}
      → laws.Holds w
      → Run (new_coordinated w) e
      → IsOrdered e.exchanges
        × Remembers r tunnel laws e.previous e.exchanges
        × laws.Holds e.wireguard
  Run-IsOrdered h run = let k = Run-IsCoordinated h run in (k.ordered, k.remembered, k.holds)
