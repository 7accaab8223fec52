-- ===== src/Scheduler/Laws.antt =====
-- Who runs the jobs, and how `stop` ends (job-scheduler.ts).
use nestjs_ddd_lean.Prelude.{
  ◌≡◌, refl, sym, ap, ◌∙◌, Bool, true, false, not, ◌&&◌, ◌||◌, List, [], ◌∷◌, ◌++◌, map, append-nil,
  append_assoc, String, arith, length, map-append, subst,
}
use nestjs_ddd_lean.Scheduler.{
  Job, Settings, CronRegistry, Registered, Scheduler, Effect, disabled, cron_started, names,
  register_jobs, no_jobs, on_application_bootstrap,
}

abbrev cron_line : String → Job → Effect
cron_line zone j = cron_started j.name j.cron_time zone

register_jobs_all :
    (registry : CronRegistry) (zone : String) (jobs : List Job) (s : Scheduler)
    → (register_jobs registry zone jobs s).2 ≡ true
    → (names (register_jobs registry zone jobs s).0.registered
        ≡ names s.registered ++ map (λ j. j.name) jobs)
      × ((register_jobs registry zone jobs s).1 ≡ map (cron_line zone) jobs)
unfolding register_jobs
register_jobs_all registry zone [] s h = (sym (append-nil _), refl)
register_jobs_all registry zone (j ∷ js) s h =
    let entry : Registered = record {
      name = j.name;
      cron_on = true;
      running = false;
      awaited = false;
    } in
    let s' = record s { registered = s.registered ++ entry ∷ [] } in
    let (listed, logged) = register_jobs_all registry zone js s' (ground (arith, h)) in
    let accepted : registry.accepts (names s.registered) j.name j.cron_time ≡ true =
      ground (arith, h) in
    rw accepted (
      listed
          ∙ (ap (λ l. l ++ map (λ k. k.name) js)
                (map-append (λ r. r.name) s.registered (entry ∷ []))
              ∙ append_assoc (names s.registered) (j.name ∷ []) (map (λ k. k.name) js)),
      ap (λ l. cron_line zone j ∷ l) logged,
    )

-- Jobs run here if the scheduler is enabled and, in cluster mode, this worker is the leader.
abbrev pub runs_jobs : Settings → Bool
runs_jobs c = c.enabled && (not c.clustered || c.is_leader)

bootstrap_on :
    (registry : CronRegistry) (config : Settings) (jobs : List Job)
    → runs_jobs config ≡ true
    → on_application_bootstrap registry config jobs
      ≡ register_jobs registry config.timezone jobs no_jobs
unfolding on_application_bootstrap
bootstrap_on registry config jobs h = ground arith

-- At bootstrap, a process that is enabled and, in cluster mode, the leader registers and starts
-- every job, in order and in the configured time zone, or throws where the registry refuses one.
-- Any other process registers and starts none, and does not throw.
pub bootstrap_registers :
    (registry : CronRegistry) (config : Settings) (jobs : List Job)
    → let (s, fx, done) = on_application_bootstrap registry config jobs in
      (runs_jobs config ≡ true
        → done ≡ true
        → (names s.registered ≡ map (λ j. j.name) jobs)
          × (fx ≡ map (cron_line config.timezone) jobs))
      × (runs_jobs config ≡ false
          → (s.registered ≡ [])
            × (done ≡ true)
            × (fx ≡ disabled (length jobs) (config.enabled && config.clustered) ∷ []))
unfolding on_application_bootstrap
bootstrap_registers registry config jobs = (
  λ on done.
      let same = bootstrap_on registry config jobs on in
      subst
        (λ r.
          (names r.0.registered ≡ map (λ j. j.name) jobs)
          × (r.1 ≡ map (cron_line config.timezone) jobs))
        (sym same)
        (register_jobs_all registry config.timezone jobs no_jobs (ap (λ r. r.2) (sym same) ∙ done)),
  λ off. (ground (arith, off), ground (arith, off), ground (arith, off)),
)
