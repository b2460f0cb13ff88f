-- ===== src/Apply/Steps/Quiet.antt =====
-- A plan that changes nothing runs nothing.
use regied.Prelude.{
  ◌≡◌, ◌≢◌, refl, ◌⊎◌, Bool, true, false, some, String, List, [], ◌∷◌, All, All-append, arith, ◌⋅◌,
}
use regied.Apply.Types.{FileChange, SwitchChange, DnsChange, Plan, reclaim, unchanged}
use regied.Apply.Services.{
  Options, Probes, Rendering, LinkFile, Service, change_in, service_steps, services,
  session_services, session_names, deferred_files, deferred_reclaim, any_kind, any_had_before,
  any_written, service_files,
}
use regied.Apply.Steps.{
  ruleset_steps, seed_steps, switch_steps, reload_steps, udev_steps, unit_steps, all_service_steps,
  dns_steps, steps, changed_where, written_in, read_by_networkd, read_by_udev,
}

abbrev pub Unchanged : List FileChange → Type 0
Unchanged = All (λ f. f.kind ≡ unchanged)

-- A declared process that was on the host before and is not known to be down.
abbrev pub IsSteady : Service → Type 0
IsSteady s = (s.declared ≡ false) ⊎ ((any_had_before s.inputs ≡ true) × (s.active ≢ some false))

change_in-unchanged :
    (path : String) (fs : List FileChange) → Unchanged fs → (change_in path fs).kind ≡ unchanged
unfolding change_in
change_in-unchanged path [] h = refl
change_in-unchanged path (f ∷ fs) h = ground (arith, change_in-unchanged path fs h.1)

changed_where_quiet :
    (picks : String → Bool) (fs : List FileChange) → Unchanged fs → changed_where picks fs ≡ false
unfolding changed_where
changed_where_quiet picks [] h = refl
changed_where_quiet picks (f ∷ fs) h = ground (arith, changed_where_quiet picks fs h.1)

written_in_quiet :
    (prefix : String) (fs : List FileChange) → Unchanged fs → written_in prefix fs ≡ false
unfolding written_in
written_in_quiet prefix [] h = refl
written_in_quiet prefix (f ∷ fs) h = ground (arith, written_in_quiet prefix fs h.1)

deferred_files_quiet : (fs : List FileChange) → Unchanged fs → deferred_files reclaim fs ≡ []
unfolding deferred_files
deferred_files_quiet [] h = refl
deferred_files_quiet (f ∷ fs) h = ground (arith, deferred_files_quiet fs h.1)

switch_steps_quiet :
    (cs : List SwitchChange) → All (λ c. c.changed ≡ false) cs → switch_steps cs ≡ []
unfolding switch_steps
switch_steps_quiet [] h = refl
switch_steps_quiet (c ∷ cs) h = ground (arith, switch_steps_quiet cs h.1)

dns_steps_quiet : (cs : List DnsChange) → All (λ c. c.write ≡ false) cs → dns_steps cs ≡ []
unfolding dns_steps
dns_steps_quiet [] h = refl
dns_steps_quiet (c ∷ cs) h = ground (arith, dns_steps_quiet cs h.1)

any_kind_quiet : (fs : List FileChange) → Unchanged fs → any_kind reclaim fs ≡ false
unfolding any_kind
any_kind_quiet [] h = refl
any_kind_quiet (f ∷ fs) h = ground (arith, any_kind_quiet fs h.1)

any_written_quiet : (fs : List FileChange) → Unchanged fs → any_written fs ≡ false
unfolding any_written
any_written_quiet [] h = refl
any_written_quiet (f ∷ fs) h = ground (arith, any_written_quiet fs h.1)

-- A process is left alone if none of its files changes and it is steady.
service_steps_quiet :
    (s : Service) → Unchanged (service_files s) → IsSteady s → service_steps s ≡ []
unfolding service_steps service_files
service_steps_quiet s h steady =
    ground (arith, any_written_quiet s.inputs h.1, any_kind_quiet s.inputs h.1, h.0)

session_services-Unchanged :
    (opts : Options) (probes : Probes) (plan : Plan) (sessions names : List String)
    → Unchanged plan.files
    → All (λ s. Unchanged (service_files s)) (session_services opts probes plan sessions names).0
unfolding session_services service_files
session_services-Unchanged opts probes plan sessions [] h = tt
session_services-Unchanged opts probes plan sessions (name ∷ names) h = (
  (
    change_in-unchanged _ plan.files h,
    (change_in-unchanged _ plan.files h, (change_in-unchanged _ plan.files h, tt)),
  ),
  session_services-Unchanged opts probes plan sessions names h,
)

services-Unchanged :
    (opts : Options) (probes : Probes) (plan : Plan) (rendered : Rendering)
    → Unchanged plan.files
    → All (λ s. Unchanged (service_files s)) (services opts probes plan rendered).0
unfolding services service_files
services-Unchanged opts probes plan rendered h =
    All-append (λ s. Unchanged (service_files s)) _ _
      (session_services-Unchanged opts probes plan rendered.sessions
        (session_names opts plan rendered.sessions) h)
      ((change_in-unchanged _ plan.files h, (change_in-unchanged _ plan.files h, tt)), tt)

all_service_steps_quiet :
    (ss : List Service)
    → All (λ s. Unchanged (service_files s)) ss
    → All IsSteady ss
    → all_service_steps ss ≡ []
unfolding all_service_steps
all_service_steps_quiet [] h k = refl
all_service_steps_quiet (s ∷ ss) h k =
    rw (service_steps_quiet s h.0 k.0, all_service_steps_quiet ss h.1 k.1)

module _ (opts : Options) (probes : Probes) (files : List FileChange) (same : Unchanged files) where
  reload_steps_quiet : reload_steps opts files ≡ []
  unfolding reload_steps
  reload_steps_quiet = rw (changed_where_quiet (read_by_networkd opts) files same)

  udev_steps_quiet : (links : List LinkFile) → (udev_steps opts probes files links).0 ≡ []
  unfolding udev_steps
  udev_steps_quiet links = rw (changed_where_quiet (read_by_udev opts) files same)

  unit_steps_quiet : unit_steps opts files ≡ []
  unfolding unit_steps
  unit_steps_quiet = rw (written_in_quiet (opts.unit_dir ⋅ "/") files same)

-- A plan has no step at all if every file and switch is as it should be, the firewall and its sets
-- are in place, no record is to be written, and every declared process was on the host before and is
-- not known to be down.
pub steps_quiet :
    (opts : Options) (probes : Probes) (plan : Plan) (rendered : Rendering)
    → Unchanged plan.files
    → All (λ c. c.changed ≡ false) plan.switches
    → plan.firewall.apply ≡ false
    → plan.firewall.elements ≡ []
    → All (λ c. c.write ≡ false) plan.records
    → All IsSteady (services opts probes plan rendered).0
    → (steps opts probes plan rendered).0 ≡ []
unfolding steps
steps_quiet opts probes plan rendered files switches table sets records steady =
    rw
      (
        all_service_steps_quiet _ (services-Unchanged opts probes plan rendered files) steady,
        switch_steps_quiet plan.switches switches,
        dns_steps_quiet plan.records records,
        deferred_files_quiet plan.files files,
        reload_steps_quiet opts probes plan.files files,
        udev_steps_quiet opts probes plan.files files rendered.link_files,
        unit_steps_quiet opts probes plan.files files,
      )
      (unfold ruleset_steps seed_steps deferred_reclaim in ground arith)
