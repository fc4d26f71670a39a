-- ===== src/Plugin/Lifecycle.antt =====
-- src/meta_plugin.cpp: the engine's `sv_downloadurl` and the server, over the plugin's life.
use fastdl_mm.Prelude.{
  ◌≡◌, refl, sym, ap, ◌∙◌, inl, inr, Bool, true, false, not, ◌&&◌, ◌||◌, Option, none, some, List,
  [], ◌∷◌, arith, if◌then◌else◌, Bool-cases, if-elim, All, Bytes,
}
use fastdl_mm.Plugin.{
  read_config, normalized_public_url, restore_download_url, manage_url, configure_download_url,
  start_server, register_plugin, start_frame, meta_detach, step, run, Engine, FastdlConfig, Plugin,
  Event, game_init, frame, restart, detach, sets_url,
}

-- The URL that is not the plugin's.
abbrev pub own_url : Plugin → Bytes
own_url p = if p.download_url_managed then p.previous_download_url else p.sv_downloadurl

-- The plugin holds the URL only while the server runs.
abbrev pub IsServed : Plugin → Type 0
IsServed p = (p.download_url_managed && not p.running) ≡ false

-- Nobody else sets `sv_downloadurl`.
abbrev pub LeavesUrl : Event → Type 0
LeavesUrl (sets_url url) = ⊥
LeavesUrl _ = Unit

restore_lem :
    (p : Plugin)
    → ((restore_download_url p).sv_downloadurl ≡ own_url p)
      × ((restore_download_url p).download_url_managed ≡ false)
unfolding restore_download_url
restore_lem p = elim (Bool-cases p.download_url_managed) [
  | inl e ↦ simp e (refl, refl)
  | inr e ↦ simp e (refl, refl)
]

stopped_lem :
    (p : Plugin)
    → IsServed (record (restore_download_url p) { running = false })
      × (own_url (record (restore_download_url p) { running = false }) ≡ own_url p)
stopped_lem p = let restored = restore_lem p in rw restored.1 (refl, restored.0)

configure_lem :
    (config : FastdlConfig) (p : Plugin)
    → p.running ≡ true
    → p.download_url_managed ≡ false
    → IsServed (configure_download_url config p)
      × (own_url (configure_download_url config p) ≡ p.sv_downloadurl)
unfolding configure_download_url
configure_lem config p r m =
    let P : Plugin → Type 0 = λ q. IsServed q × (own_url q ≡ p.sv_downloadurl) in
    let same : P p = simp (m, r) (refl, refl) in
    let managed : (o : Option Bytes) → P (manage_url p o) =
      λ o. elim o as (λ k. P (manage_url p k)) [ none ↦ same | some url ↦ (ap not r, refl) ] in
    if-elim P (not config.auto_download_url) same
      (managed (normalized_public_url config.public_url))

start_server_lem :
    (engine : Engine) (starts : Bool) (p : Plugin)
    → IsServed (start_server engine starts p) × (own_url (start_server engine starts p) ≡ own_url p)
unfolding start_server
start_server_lem engine starts p =
    let p1 = restore_download_url p in
    let restored = restore_lem p in
    let P : Plugin → Type 0 = λ q. IsServed q × (own_url q ≡ own_url p) in
    let started =
      configure_lem (read_config engine) (record p1 { running = true }) refl restored.1 in
    if-elim P (not (read_config engine).enabled || not starts) (stopped_lem p)
      (started.0, started.1 ∙ restored.0)

step_lem : (p : Plugin) (e : Event) → IsServed p → IsServed (step p e)
unfolding step register_plugin start_frame meta_detach
step_lem p game_init h = if-elim IsServed p.registered h h
step_lem p (frame engine starts) h =
    if-elim IsServed p.start_pending
      (start_server_lem engine starts (record p { start_pending = false })).0 h
step_lem p (restart engine starts) h = (start_server_lem engine starts p).0
step_lem p detach h = (stopped_lem p).0
step_lem p (sets_url url) h = h

step-own_url : (p : Plugin) (e : Event) → LeavesUrl e → own_url (step p e) ≡ own_url p
unfolding step register_plugin start_frame meta_detach
step-own_url p game_init h = if-elim (λ (q : Plugin). own_url q ≡ own_url p) p.registered refl refl
step-own_url p (frame engine starts) h =
    if-elim (λ (q : Plugin). own_url q ≡ own_url p) p.start_pending
      (start_server_lem engine starts (record p { start_pending = false })).1 refl
step-own_url p (restart engine starts) h = (start_server_lem engine starts p).1
step-own_url p detach h = (stopped_lem p).1
step-own_url p (sets_url url) h = elim h [ ]

run-IsServed : (p : Plugin) (es : List Event) → IsServed p → IsServed (run p es)
unfolding run
run-IsServed p [] h = h
run-IsServed p (e ∷ es) h = run-IsServed (step p e) es (step_lem p e h)

run-own_url : (p : Plugin) (es : List Event) → All LeavesUrl es → own_url (run p es) ≡ own_url p
unfolding run
run-own_url p [] k = refl
run-own_url p (e ∷ es) k = run-own_url (step p e) es k.1 ∙ step-own_url p e k.0

-- If the plugin has not set `sv_downloadurl` yet and nobody else sets it, then whenever the server does not run, after
-- any history of starts, restarts, failures and ends, `sv_downloadurl` is what it was before: clients are sent to the
-- plugin's URL only while the server runs.
pub run_stopped :
    (p : Plugin) (es : List Event)
    → p.download_url_managed ≡ false
    → All LeavesUrl es
    → (run p es).running ≡ false
    → (run p es).sv_downloadurl ≡ p.sv_downloadurl
run_stopped p es h k idle =
    let q = run p es in
    let served : IsServed q = run-IsServed p es (ap (λ m. m && not p.running) h) in
    let released : q.download_url_managed ≡ false = ground (arith, served, idle) in
    sym (ap (λ m. if m then q.previous_download_url else q.sv_downloadurl) released)
    ∙ run-own_url p es k
    ∙ ap (λ m. if m then p.previous_download_url else p.sv_downloadurl) h
