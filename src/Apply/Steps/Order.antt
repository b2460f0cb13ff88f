-- ===== src/Apply/Steps/Order.antt =====
-- The steps of a plan come in the order of the phases, and a plan that changes nothing has none.
use regied.Prelude.{ℕ, ◌≤◌, ◌≡◌, refl, String, List, [], ◌∷◌, ◌++◌, All, All-append, arith}
use regied.Apply.Types.{
  rank, Step, FileChange, SwitchChange, FirewallChange, SetElements, DnsChange, Plan, reclaim,
}
use regied.Apply.Services.{
  Options, Probes, Rendering, LinkFile, Service, service_steps, services, deferred_files, removals,
  deferred_reclaim,
}
use regied.Apply.Steps.{
  ruleset_steps, seed_steps, switch_steps, reload_steps, trigger_steps, udev_steps, unit_steps,
  all_service_steps, dns_steps, steps,
}

-- Every phase is at least `n`, and no step is followed by one of an earlier phase.
abbrev pub InOrder : ℕ → List Step → Type 0
InOrder n [] = Unit
InOrder n (s ∷ ss) = (n ≤ rank s.phase) × InOrder (rank s.phase) ss

abbrev AllAt : ℕ → List Step → Type 0
AllAt n = All (λ (s : Step). rank s.phase ≡ n)

InOrder-weaken : (m n : ℕ) (ss : List Step) → m ≤ n → InOrder n ss → InOrder m ss
InOrder-weaken m n [] le h = tt
InOrder-weaken m n (s ∷ ss) le h = (omega arith, h.1)

-- Steps of one phase go before steps of that phase and later.
InOrder-append :
    (m n : ℕ) (xs ys : List Step) → m ≤ n → AllAt n xs → InOrder n ys → InOrder m (xs ++ ys)
InOrder-append m n [] ys le a h = InOrder-weaken m n ys le h
InOrder-append m n (x ∷ xs) ys le a h =
    (omega arith, InOrder-append (rank x.phase) n xs ys (omega arith) a.1 h)

ruleset_steps-AllAt : (c : FirewallChange) → AllAt 1 (ruleset_steps c)
unfolding ruleset_steps
ruleset_steps-AllAt c = ground arith

seed_steps-AllAt : (ss : List SetElements) → AllAt 1 (seed_steps ss)
unfolding seed_steps
seed_steps-AllAt [] = tt
seed_steps-AllAt (s ∷ ss) = (refl, tt)

switch_steps-AllAt : (cs : List SwitchChange) → AllAt 2 (switch_steps cs)
unfolding switch_steps
switch_steps-AllAt [] = tt
switch_steps-AllAt (c ∷ cs) = ground (arith, switch_steps-AllAt cs)

reload_steps-AllAt : (opts : Options) (files : List FileChange) → AllAt 3 (reload_steps opts files)
unfolding reload_steps
reload_steps-AllAt opts files = ground arith

trigger_steps-AllAt :
    (probes : Probes) (files : List FileChange) (ls : List LinkFile)
    → AllAt 3 (trigger_steps probes files ls).0
unfolding trigger_steps
trigger_steps-AllAt probes files [] = tt
trigger_steps-AllAt probes files (l ∷ ls) = ground (arith, trigger_steps-AllAt probes files ls)

udev_steps-AllAt :
    (opts : Options) (probes : Probes) (files : List FileChange) (ls : List LinkFile)
    → AllAt 3 (udev_steps opts probes files ls).0
unfolding udev_steps
udev_steps-AllAt opts probes files ls = ground (arith, trigger_steps-AllAt probes files ls)

unit_steps-AllAt : (opts : Options) (files : List FileChange) → AllAt 4 (unit_steps opts files)
unfolding unit_steps
unit_steps-AllAt opts files = ground arith

service_steps-AllAt : (s : Service) → AllAt 5 (service_steps s)
unfolding service_steps
service_steps-AllAt s = ground arith

all_service_steps-AllAt : (ss : List Service) → AllAt 5 (all_service_steps ss)
unfolding all_service_steps
all_service_steps-AllAt [] = tt
all_service_steps-AllAt (s ∷ ss) =
    All-append _ (service_steps s) (all_service_steps ss) (service_steps-AllAt s)
      (all_service_steps-AllAt ss)

removals-AllAt : (reason : String) (fs : List FileChange) → AllAt 5 (removals reason fs)
unfolding removals
removals-AllAt reason [] = tt
removals-AllAt reason (f ∷ fs) = (refl, removals-AllAt reason fs)

deferred_reclaim-AllAt :
    (fs : List FileChange) (reason : String) → AllAt 5 (deferred_reclaim fs reason)
unfolding deferred_reclaim
deferred_reclaim-AllAt [] reason = tt
deferred_reclaim-AllAt (f ∷ fs) reason =
    All-append _ (removals reason (f ∷ fs)) _ (removals-AllAt reason (f ∷ fs)) (refl, tt)

dns_steps-InOrder : (cs : List DnsChange) → AllAt 6 (dns_steps cs)
unfolding dns_steps
dns_steps-InOrder [] = tt
dns_steps-InOrder (c ∷ cs) = ground (arith, dns_steps-InOrder cs)

AllAt-InOrder : (n : ℕ) (ss : List Step) → AllAt n ss → InOrder n ss
AllAt-InOrder n [] h = tt
AllAt-InOrder n (s ∷ ss) h =
    (omega arith, InOrder-weaken (rank s.phase) n ss (omega arith) (AllAt-InOrder n ss h.1))

-- Whatever changes, the steps come in the order firewall, kernel switches, networkd, process
-- configuration, processes, DNS records, and none of them is a staging step.
pub steps-InOrder :
    (opts : Options) (probes : Probes) (plan : Plan) (rendered : Rendering)
    → InOrder 1 (steps opts probes plan rendered).0
unfolding steps
steps-InOrder opts probes plan rendered =
    InOrder-append 1 1 _ _ (omega arith) (ruleset_steps-AllAt plan.firewall) (
      InOrder-append 1 1 _ _ (omega arith) (seed_steps-AllAt plan.firewall.elements) (
        InOrder-append 1 2 _ _ (omega arith) (switch_steps-AllAt plan.switches) (
          InOrder-append 2 3 _ _ (omega arith) (reload_steps-AllAt opts plan.files) (
            InOrder-append 3 3 _ _ (omega arith)
              (udev_steps-AllAt opts probes plan.files rendered.link_files)
              (InOrder-append 3 4 _ _ (omega arith) (unit_steps-AllAt opts plan.files) (
                InOrder-append 4 5 _ _ (omega arith)
                  (all_service_steps-AllAt (services opts probes plan rendered).0)
                  (InOrder-append 5 5 _ _ (omega arith)
                    (deferred_reclaim-AllAt (deferred_files reclaim plan.files) _)
                    (InOrder-weaken 5 6 _ (omega arith)
                      (AllAt-InOrder 6 _ (dns_steps-InOrder plan.records))))))))))
