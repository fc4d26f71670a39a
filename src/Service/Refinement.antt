-- ===== src/Service/Refinement.antt =====
-- src/meta_plugin.cpp with src/fastdl_server.cpp: the plugin with its server does what Plugin says of it.
use fastdl_mm.Prelude.{
  ◌≡◌, refl, sym, ap, ◌∙◌, inl, inr, Bool, true, false, not, ◌||◌, Option, none, some, List, [],
  ◌∷◌, Bytes, Bool-cases, if-elim_true, if-elim_false,
}
use fastdl_mm.Plugin
use fastdl_mm.Plugin.{Plugin, FastdlConfig}
use fastdl_mm.Service
use fastdl_mm.Service.{ServiceConfig, Service}
use fastdl_mm.Service.Startup.{Starts, start-Starts}
use fastdl_mm.Service.Whole.{
  Whole, Startup, enabled, settings_of, started, start_whole, Call, game_init, frame, restart,
  detach, sets_url, call, calls, view, event_of, events_of,
}

abbrev with_running : Plugin → Bool → Plugin
with_running p b = record p { running = b }

restore_running :
    (p : Plugin) (b : Bool)
    → Plugin.restore_download_url (with_running p b)
      ≡ with_running (Plugin.restore_download_url p) b
unfolding Plugin.restore_download_url
restore_running p b = elim (Bool-cases p.download_url_managed) [
  | inl e ↦ simp e refl
  | inr e ↦ simp e refl
]

configure_running :
    (c : FastdlConfig) (p : Plugin) (b : Bool)
    → Plugin.configure_download_url c (with_running p b)
      ≡ with_running (Plugin.configure_download_url c p) b
unfolding Plugin.configure_download_url
configure_running c p b =
    let managed : (o : Option Bytes)
        → Plugin.manage_url (with_running p b) o ≡ with_running (Plugin.manage_url p o) b =
      λ o.
        elim o
          as (λ k.
            Plugin.manage_url (with_running p b) k ≡ with_running (Plugin.manage_url p k) b) [
              | none ↦ refl
              | some url ↦ refl
            ] in
    elim (Bool-cases c.auto_download_url) [
      | inl e ↦ simp e (managed (Plugin.normalized_public_url c.public_url))
      | inr e ↦ simp e refl
    ]

daemon_of : (config : ServiceConfig) (r : Service × Bool) → Starts config r → r.0.daemon ≡ r.1
daemon_of config (s, true) h = h.daemon
daemon_of config (s, false) h = h.no_daemon

stop_daemon : (s : Service) → (Service.stop s).daemon ≡ false
unfolding Service.stop
stop_daemon s = refl

view-start_whole :
    (u : Startup) (w : Whole)
    → view (start_whole u w) ≡ Plugin.start_server u.engine (started u w.service).1 (view w)
unfolding start_whole Plugin.start_server
view-start_whole u w =
    let p = Plugin.restore_download_url w.globals in
    let r = started u w.service in
    let config = Plugin.read_config u.engine in
    let p1 = Plugin.restore_download_url (view w) in
    let off : (b : Bool) → with_running p b ≡ with_running p1 b =
      λ b. ap (λ q. with_running q b) (sym (restore_running w.globals w.service.daemon)) in
    elim (Bool-cases (enabled u)) [
      | inr e ↦
          if-elim_true (λ (t : Whole). view t ≡ Plugin.start_server u.engine r.1 (view w))
            (ap not e) _
            (if-elim_true (λ (q : Plugin). with_running p (Service.stop w.service).daemon ≡ q)
              (ap (λ b. not b || not r.1) e) _
              (ap (with_running p) (stop_daemon w.service) ∙ off false))
      | inl e ↦
          let daemon : r.0.daemon ≡ r.1 =
            daemon_of (settings_of u) r (start-Starts u.host (settings_of u) w.service e).0 in
          if-elim_false (λ (t : Whole). view t ≡ Plugin.start_server u.engine r.1 (view w))
            (ap not e) _
            (elim (Bool-cases r.1) [
              | inr f ↦
                  if-elim_true (λ (t : Whole). view t ≡ Plugin.start_server u.engine r.1 (view w))
                    (ap not f) _
                    (if-elim_true (λ (q : Plugin). with_running p r.0.daemon ≡ q)
                      (ap (λ b. not b || not r.1) e ∙ ap not f) _
                      (ap (with_running p) (daemon ∙ f) ∙ off false))
              | inl f ↦
                  if-elim_false (λ (t : Whole). view t ≡ Plugin.start_server u.engine r.1 (view w))
                    (ap not f) _
                    (if-elim_false
                      (λ (q : Plugin).
                        with_running (Plugin.configure_download_url config p) r.0.daemon ≡ q)
                      (ap (λ b. not b || not r.1) e ∙ ap not f) _
                      (ap (with_running (Plugin.configure_download_url config p)) (daemon ∙ f)
                        ∙ sym (configure_running config p true)
                        ∙ ap (Plugin.configure_download_url config) (off true)))
            ])
    ]

view-call : (w : Whole) (c : Call) → view (call w c) ≡ Plugin.step (view w) (event_of w c)
unfolding call Plugin.step Plugin.register_plugin Plugin.start_frame Plugin.meta_detach
view-call w game_init = elim (Bool-cases w.globals.registered) [
  | inl e ↦ simp e refl
  | inr e ↦ simp e refl
]
view-call w (frame u) =
    let woken = record w { globals = record w.globals { start_pending = false } } in
    let right = Plugin.step (view w) (event_of w (frame u)) in
    elim (Bool-cases w.globals.start_pending) [
      | inl e ↦
          if-elim_true (λ (t : Whole). view t ≡ right) e _
            (if-elim_true (λ (q : Plugin). view (start_whole u woken) ≡ q) e _
              (view-start_whole u woken))
      | inr e ↦
          if-elim_false (λ (t : Whole). view t ≡ right) e _
            (if-elim_false (λ (q : Plugin). view w ≡ q) e _ refl)
    ]
view-call w (restart u) = view-start_whole u w
view-call w detach =
    ap (with_running (Plugin.restore_download_url w.globals)) (stop_daemon w.service)
    ∙ ap (λ q. with_running q false) (sym (restore_running w.globals w.service.daemon))
view-call w (sets_url url) = refl

-- The plugin together with its server refines Plugin: any history of calls, seen without the server's parts, is the
-- history of Plugin in which each start has the result that the server's `start` has there, and in which the plugin
-- runs exactly if the server has its daemon.
pub view-calls :
    (w : Whole) (cs : List Call) → view (calls w cs) ≡ Plugin.run (view w) (events_of w cs)
unfolding calls Plugin.run
view-calls w [] = refl
view-calls w (c ∷ cs) =
    view-calls (call w c) cs ∙ ap (λ p. Plugin.run p (events_of (call w c) cs)) (view-call w c)
