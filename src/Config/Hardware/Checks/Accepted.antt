-- ===== src/Config/Hardware/Checks/Accepted.antt =====
-- The hardware that the checks accept.
use ramulator.Prelude.{
  ℕ, suc, String, ◌≡◌, ◌↔◌, ◌⊎◌, refl, ap, sym, ◌∙◌, true, false, ◌||◌, none, some, List, Checked,
  ok, all_checks, all_checks-ok_iff, >>-ok_iff, str_eq, eq_iff, ◌==◌, ==_iff, Option-cases,
  Bool-cases, inl, inr,
}
use ramulator.Prelude.Int.{pos}
use ramulator.PyValue.{
  Value, Fields, end, field, keyed, null, bool, int, float, str, arr, obj, get, contains,
  equals_nat,
}
use ramulator.Config.Check.{
  fail_if, positive_int, nonnegative_number, is_positive_int, reject_unknown, entry_is_nat,
}
use ramulator.Config.Check.Laws.{
  KnownKeys, HasPositive, HasChoice, positive_at-ok_iff, choice_at-ok_iff, each-ok_iff, fail_unless,
  fail_if-ok_iff, reject_unknown-ok_iff, positive_int_ok,
}
use ramulator.Config.Hardware.Defaults
use ramulator.Config.Hardware.Defaults.{Hardware}
use ramulator.Config.Hardware.Pim.Accepted.{IsPim, pim_checks-ok_iff, IsNonnegative, takes_number}
use ramulator.Config.Hardware.Checks.{
  backend_status, status_accepted, require_supported_pim_backend, only_one, nonempty, each_item,
  rank_of, class_supported, topology_checks, device_checks, controller_checks, override_checks,
  hardware_checks,
}

-- A predicate on the values of a dictionary.
abbrev pub Values : (Value → Type 0) → Fields → Type 0
Values P end = Unit {0}
Values P (field k v d) = P v × Values P d
Values P (keyed k v d) = P v × Values P d

abbrev pub IsPositive : Value → Type 0
IsPositive v = (n : ℕ) × (v ≡ int (pos (suc n)))

-- A text other than the empty one.
abbrev pub IsText : Value → Type 0
IsText v = (s : String) × (v ≡ str s) × (str_eq s "" ≡ false)

-- No rank is set, or one or two.
abbrev pub OneOrTwoRanks : Fields → Type 0
OneOrTwoRanks d =
    (get "rank" d ≡ none)
    ⊎ (get "rank" d ≡ some (int (pos 1)))
    ⊎ (get "rank" d ≡ some (int (pos 2)))

pub record IsHardware (h : Hardware) : Type 0 where
  pub topology_known : KnownKeys Defaults.supported_topology_fields h.topology
  pub one_controller : get "controllers" h.topology ≡ some (int (pos 1))
  pub one_channel : get "channels" h.topology ≡ some (int (pos 1))
  pub dram_class :
      (c : String) × (h.dram_class ≡ str c)
      × (contains c Defaults.supported_pim_dram_classes ≡ true)
  pub org_preset : IsText h.org_preset
  pub timing_preset : IsText h.timing_preset
  pub frontend_clock_ratio : IsPositive h.frontend_clock_ratio
  pub pim_known : KnownKeys Defaults.supported_pim_fields h.pim
  pub controller_known : KnownKeys Defaults.supported_controller_fields h.controller
  pub memory_known : KnownKeys Defaults.supported_memory_system_fields h.memory_system
  pub scheduler : HasChoice Defaults.supported_schedulers h.controller "scheduler"
  pub refresh_manager : HasChoice Defaults.supported_refresh_managers h.controller "refresh_manager"
  pub row_policy : HasChoice Defaults.supported_row_policies h.controller "row_policy"
  pub addr_mapper : HasChoice Defaults.supported_addr_mappers h.controller "addr_mapper"
  pub channel_mapper : HasChoice Defaults.supported_channel_mappers h.memory_system "channel_mapper"
  pub clock_ratio : HasPositive h.memory_system "clock_ratio"
  pub pim : IsPim h.pim
  pub org_overrides : Values IsPositive h.org_overrides
  pub ranks : OneOrTwoRanks h.org_overrides
  pub timing_overrides : Values IsNonnegative h.timing_overrides

each_item-ok_iff :
    (P : Value → Type 0) (check : Value → String → Checked)
    → ((v : Value) (path : String) → (check v path ≡ ok tt) ↔ P v)
    → (d : Fields) → (each_item check d ≡ ok tt) ↔ Values P d
each_item-ok_iff P check one end = (λ _. tt, λ _. refl)
each_item-ok_iff P check one (field k v d) = (
  λ h.
      let (first, rest) = (>>-ok_iff (check v k) (each_item check d)).0 h in
      ((one v k).0 first, (each_item-ok_iff P check one d).0 rest),
  λ h.
      (>>-ok_iff (check v k) (each_item check d)).1
        ((one v k).1 h.0, (each_item-ok_iff P check one d).1 h.1),
)
each_item-ok_iff P check one (keyed k v d) = (
  λ h.
      let (first, rest) = (>>-ok_iff (check v "") (each_item check d)).0 h in
      ((one v "").0 first, (each_item-ok_iff P check one d).0 rest),
  λ h.
      (>>-ok_iff (check v "") (each_item check d)).1
        ((one v "").1 h.0, (each_item-ok_iff P check one d).1 h.1),
)

takes_count : (v : Value) (path : String) → (is_positive_int v path ≡ ok tt) ↔ IsPositive v
unfolding positive_int
takes_count v path = (positive_int_ok v path, λ p. rw p.1 refl)

Values-get :
    (P : Value → Type 0) (k : String) (d : Fields) {v : Value} → Values P d → get k d ≡ some v → P v
unfolding get
Values-get P k end {v} all h = absurd (cc)
Values-get P k (field j w d) {v} all h = elim (Bool-cases (str_eq j k)) [
  | inl same ↦
      let e : some w ≡ some v = rw (same, get) at h in let e' : w ≡ v = cc in rw (← e') (all.0)
  | inr other ↦ Values-get P k d all.1 (rw (other, get) at h)
]
Values-get P k (keyed j w d) {v} all h = Values-get P k d all.1 h

entry_is_nat_found :
    (k : String) (n : ℕ) (d : Fields) {v : Value}
    → get k d ≡ some v
    → entry_is_nat k n d ≡ equals_nat n v
entry_is_nat_found k n d h = rw (h, entry_is_nat) refl

only_one-ok_iff :
    (k : String) (d : Fields)
    → HasPositive d k
    → (only_one k d ≡ ok tt) ↔ (get k d ≡ some (int (pos 1)))
unfolding only_one equals_nat
only_one-ok_iff k d (n, found) = (
  λ h.
      let one = sym (entry_is_nat_found k 1 d found) ∙ (fail_unless _ _ _).0 h in
      let e : suc n ≡ 1 = (==_iff (suc n) 1).0 one in found ∙ ap (λ (m : ℕ). some (int (pos m))) e,
  λ h. (fail_unless _ _ _).1 (entry_is_nat_found k 1 d h),
)

two_ranks : (n : ℕ) → (n == 1 || n == 2) ≡ true → (n ≡ 1) ⊎ (n ≡ 2)
two_ranks n h = elim (Bool-cases (n == 1)) [
  | inl one ↦ inl ((==_iff n 1).0 one)
  | inr other ↦ inr ((==_iff n 2).0 (rw other at h))
]

rank_found :
    (d : Fields) (n : ℕ)
    → get "rank" d ≡ some (int (pos n))
    → rank_of (get "rank" d) ≡ ok tt
    → OneOrTwoRanks d
unfolding rank_of equals_nat
rank_found d n found h = elim (two_ranks n ((fail_unless _ _ _).0 (rw found at h))) [
  | inl one ↦ inr (inl (found ∙ ap (λ (m : ℕ). some (int (pos m))) one))
  | inr two ↦ inr (inr (found ∙ ap (λ (m : ℕ). some (int (pos m))) two))
]

rank_sound : (d : Fields) → Values IsPositive d → rank_of (get "rank" d) ≡ ok tt → OneOrTwoRanks d
rank_sound d all h = elim (Option-cases (get "rank" d)) [
  | inl missing ↦ inl missing
  | inr (v, found) ↦
      let (n, e) = Values-get IsPositive "rank" d all found in
      rank_found d (suc n) (found ∙ ap some e) h
]

rank_complete : (d : Fields) → OneOrTwoRanks d → rank_of (get "rank" d) ≡ ok tt
unfolding rank_of equals_nat fail_if
rank_complete d (inl missing) = rw missing refl
rank_complete d (inr (inl one)) = rw one refl
rank_complete d (inr (inr two)) = rw two refl

nonempty_ok : (v : Value) (path : String) → nonempty v path ≡ ok tt → IsText v
unfolding nonempty
nonempty_ok (str s) path h = (s, refl, (fail_if-ok_iff _ _ _).0 h)
nonempty_ok null path h = absurd (cc)
nonempty_ok (bool b) path h = absurd (cc)
nonempty_ok (int z) path h = absurd (cc)
nonempty_ok (float x) path h = absurd (cc)
nonempty_ok (arr vs) path h = absurd (cc)
nonempty_ok (obj d) path h = absurd (cc)

nonempty-ok_iff : (v : Value) (path : String) → (nonempty v path ≡ ok tt) ↔ IsText v
unfolding nonempty
nonempty-ok_iff v path = (nonempty_ok v path, λ p. rw p.1 ((fail_if-ok_iff _ _ _).1 p.2))

abbrev IsSupportedClass : Value → Type 0
IsSupportedClass v =
    (c : String) × (v ≡ str c) × (contains c Defaults.supported_pim_dram_classes ≡ true)

class_sound : (v : Value) → class_supported v ≡ ok tt → IsSupportedClass v
unfolding class_supported
class_sound (str c) h = (c, refl, (fail_unless _ _ _).0 h)
class_sound null h = absurd (cc)
class_sound (bool b) h = absurd (cc)
class_sound (int z) h = absurd (cc)
class_sound (float x) h = absurd (cc)
class_sound (arr vs) h = absurd (cc)
class_sound (obj d) h = absurd (cc)

class_complete : (v : Value) → IsSupportedClass v → class_supported v ≡ ok tt
unfolding class_supported
class_complete v (c, e, known) = rw e ((fail_unless _ _ _).1 known)

two_classes :
    (c : String)
    → contains c Defaults.supported_pim_dram_classes ≡ true
    → (c ≡ "LPDDR5PIM") ⊎ (c ≡ "LPDDR6PIM")
two_classes c h = elim (Bool-cases (str_eq "LPDDR5PIM" c)) [
  | inl five ↦ inl (sym ((eq_iff "LPDDR5PIM" c).0 five))
  | inr other ↦ elim (Bool-cases (str_eq "LPDDR6PIM" c)) [
    | inl six ↦ inr (sym ((eq_iff "LPDDR6PIM" c).0 six))
    | inr neither ↦ absurd (cc (rw (other, neither) at h))
  ]
]

backend_complete : (v : Value) → IsSupportedClass v → require_supported_pim_backend v ≡ ok tt
unfolding require_supported_pim_backend status_accepted backend_status fail_if
backend_complete v (c, e, known) = elim (two_classes c known) [
  | inl five ↦ rw e (rw five refl)
  | inr six ↦ rw e (rw six refl)
]

known_keys :
    (d : Fields) (names : List String) (path : String)
    → (reject_unknown d names path ≡ ok tt) ↔ KnownKeys names d
known_keys d names path = reject_unknown-ok_iff d names path

hardware_sound : (h : Hardware) → all_checks (hardware_checks h) ≡ ok tt → IsHardware h
unfolding hardware_checks topology_checks device_checks override_checks
hardware_sound h e =
    let (topology, (device, (controller, (mapper, (clock, (pim, (overrides, _))))))) =
      (all_checks-ok_iff (hardware_checks h)).0 e in
    let (t0, (t1, (t2, (t3, _)))) = (all_checks-ok_iff (topology_checks h.topology)).0 topology in
    let (controllers, (channels, _)) =
      (each-ok_iff (HasPositive h.topology) _ (positive_at-ok_iff h.topology)
          Defaults.supported_topology_fields).0
        t1 in
    let (_, (d1, (d2, (d3, (d4, (d5, (d6, (d7, _)))))))) =
      (all_checks-ok_iff (device_checks h)).0 device in
    let (c0, (c1, (c2, (c3, _)))) =
      (all_checks-ok_iff (controller_checks h.controller)).0 controller in
    let (o0, (o1, (o2, _))) = (all_checks-ok_iff (override_checks h)).0 overrides in
    let positive = (each_item-ok_iff IsPositive is_positive_int takes_count h.org_overrides).0 o0 in
    record {
      topology_known = (known_keys h.topology _ _).0 t0;
      one_controller = (only_one-ok_iff "controllers" h.topology controllers).0 t2;
      one_channel = (only_one-ok_iff "channels" h.topology channels).0 t3;
      dram_class = class_sound h.dram_class d1;
      org_preset = (nonempty-ok_iff h.org_preset _).0 d2;
      timing_preset = (nonempty-ok_iff h.timing_preset _).0 d3;
      frontend_clock_ratio = (takes_count h.frontend_clock_ratio _).0 d4;
      pim_known = (known_keys h.pim _ _).0 d5;
      controller_known = (known_keys h.controller _ _).0 d6;
      memory_known = (known_keys h.memory_system _ _).0 d7;
      scheduler = (choice_at-ok_iff _ _ _).0 c0;
      refresh_manager = (choice_at-ok_iff _ _ _).0 c1;
      row_policy = (choice_at-ok_iff _ _ _).0 c2;
      addr_mapper = (choice_at-ok_iff _ _ _).0 c3;
      channel_mapper = (choice_at-ok_iff _ _ _).0 mapper;
      clock_ratio = (positive_at-ok_iff _ _).0 clock;
      pim = (pim_checks-ok_iff h.pim).0 pim;
      org_overrides = positive;
      ranks = rank_sound h.org_overrides positive o1;
      timing_overrides =
          (each_item-ok_iff IsNonnegative nonnegative_number takes_number h.timing_overrides).0 o2;
    }

topology_complete : (h : Hardware) → IsHardware h → all_checks (topology_checks h.topology) ≡ ok tt
unfolding topology_checks
topology_complete h r = (all_checks-ok_iff (topology_checks h.topology)).1 (
  (known_keys h.topology _ _).1 r.topology_known,
  (
    (each-ok_iff (HasPositive h.topology) _ (positive_at-ok_iff h.topology)
          Defaults.supported_topology_fields).1
        ((0, r.one_controller), ((0, r.one_channel), tt)),
    (
      (only_one-ok_iff "controllers" h.topology (0, r.one_controller)).1 r.one_controller,
      ((only_one-ok_iff "channels" h.topology (0, r.one_channel)).1 r.one_channel, tt),
    ),
  ),
)

device_complete : (h : Hardware) → IsHardware h → all_checks (device_checks h) ≡ ok tt
unfolding device_checks
device_complete h r = (all_checks-ok_iff (device_checks h)).1 (
  backend_complete h.dram_class r.dram_class,
  (
    class_complete h.dram_class r.dram_class,
    (
      (nonempty-ok_iff h.org_preset _).1 r.org_preset,
      (
        (nonempty-ok_iff h.timing_preset _).1 r.timing_preset,
        (
          (takes_count h.frontend_clock_ratio _).1 r.frontend_clock_ratio,
          (
            (known_keys h.pim _ _).1 r.pim_known,
            (
              (known_keys h.controller _ _).1 r.controller_known,
              ((known_keys h.memory_system _ _).1 r.memory_known, tt),
            ),
          ),
        ),
      ),
    ),
  ),
)

hardware_complete : (h : Hardware) → IsHardware h → all_checks (hardware_checks h) ≡ ok tt
unfolding hardware_checks override_checks
hardware_complete h r = (all_checks-ok_iff (hardware_checks h)).1 (
  topology_complete h r,
  (
    device_complete h r,
    (
      (all_checks-ok_iff (controller_checks h.controller)).1 (
        (choice_at-ok_iff _ _ _).1 r.scheduler,
        (
          (choice_at-ok_iff _ _ _).1 r.refresh_manager,
          ((choice_at-ok_iff _ _ _).1 r.row_policy, ((choice_at-ok_iff _ _ _).1 r.addr_mapper, tt)),
        ),
      ),
      (
        (choice_at-ok_iff _ _ _).1 r.channel_mapper,
        (
          (positive_at-ok_iff _ _).1 r.clock_ratio,
          (
            (pim_checks-ok_iff h.pim).1 r.pim,
            (
              (all_checks-ok_iff (override_checks h)).1 (
                (each_item-ok_iff IsPositive is_positive_int takes_count h.org_overrides).1
                    r.org_overrides,
                (
                  rank_complete h.org_overrides r.ranks,
                  (
                    (each_item-ok_iff IsNonnegative nonnegative_number takes_number
                          h.timing_overrides).1
                        r.timing_overrides,
                    tt,
                  ),
                ),
              ),
              tt,
            ),
          ),
        ),
      ),
    ),
  ),
)

pub hardware_checks-ok_iff :
    (h : Hardware) → (all_checks (hardware_checks h) ≡ ok tt) ↔ IsHardware h
hardware_checks-ok_iff h = (hardware_sound h, hardware_complete h)
