-- ===== src/Dispatcher/Picked.antt =====
-- The tasks that a tick picks: within the limits, and no fewer than the limits allow.
use mathlib.Core.List.Memᴰ
use chum.Base.{
  ℕ, zero, suc, ◌+◌, ◌≤◌, ◌<◌, ◌≡◌, refl, ◌∙◌, ap, ◌⊎◌, inl, inr, Bool, true, false, not, List, [],
  ◌∷◌, Memᴰ, arith, if◌then◌else◌, leb, leb→le, length, select, any, Bool-cases, any-intro,
  any-elim, not-eq_true, In-select, select-In,
}
use chum.Base.Sort.{sort_by, In-sort_by, sort_by-In}
use chum.Text.{Text, text_eq, text_eq_iff, one_of}
use chum.Text.Dict.{Dict, insert, lookup-insert}
use chum.Dispatcher.{
  Candidate, Limits, count, or_zero, sleeps, is_skipped, pick, scan, drop_deferred, candidate_less,
}

-- How many candidates of a project stand in a list.
abbrev pub of_project : Text → List Candidate → ℕ
of_project name cs = length (select (λ c. text_eq c.project name) cs)

-- A candidate that has to wait, after those of the list were picked.
abbrev pub Waits : Limits → Dict ℕ → List Candidate → Candidate → Type 0
Waits limits running picked c =
    (one_of limits.running_set c.task.id ≡ true)
    ⊎ ((sleeps limits c ≡ true)
        ⊎ (limits.max_per_project ≤ count c.project running + of_project c.project picked))

pub record IsPicked (limits : Limits) (slots : ℕ) (running : Dict ℕ) (cs picked : List Candidate)
    : Type 0 where
  pub few : length picked ≤ slots
  pub shared :
      (name : Text)
      → (of_project name picked ≡ 0)
        ⊎ (count name running + of_project name picked ≤ limits.max_per_project)
  pub given : (c : Candidate) → Memᴰ c picked → Memᴰ c cs
  pub idle :
      (c : Candidate)
      → Memᴰ c picked
      → (one_of limits.running_set c.task.id ≡ false) × (sleeps limits c ≡ false)
  pub most :
      (length picked ≡ slots)
      ⊎ ((c : Candidate) → Memᴰ c cs → Memᴰ c picked ⊎ Waits limits running picked c)

-- One more candidate of a project is counted.
count-insert :
    (k name : Text) (running : Dict ℕ)
    → count name (insert k (suc (count k running)) running)
      ≡ (if text_eq k name then suc (count k running) else count name running)
count-insert k name running =
    ap or_zero (lookup-insert k name (suc (count k running)) running)
    ∙ elim (Bool-cases (text_eq k name)) [ inl e ↦ rw e refl | inr e ↦ rw e refl ]

-- What the test of one candidate decides.
skipped-Waits :
    (limits : Limits) (running : Dict ℕ) (picked : List Candidate) (c : Candidate)
    → is_skipped limits running c ≡ true
    → Waits limits running picked c
unfolding is_skipped
skipped-Waits limits running picked c h = elim (Bool-cases (one_of limits.running_set c.task.id)) [
  | inl e ↦ inl e
  | inr e ↦ elim (Bool-cases (sleeps limits c)) [
    | inl f ↦ inr (inl f)
    | inr f ↦
        let g : leb limits.max_per_project (count c.project running) ≡ true =
          ground (arith, h, e, f) in
        inr (inr (omega (arith, leb→le limits.max_per_project (count c.project running) g)))
  ]
]

-- The next candidate is passed by.
IsPicked-skip :
    (limits : Limits) (slots : ℕ) (running : Dict ℕ) (c : Candidate) (cs picked : List Candidate)
    → is_skipped limits running c ≡ true
    → IsPicked limits slots running cs picked
    → IsPicked limits slots running (c ∷ cs) picked
IsPicked-skip limits slots running c cs picked h p = record {
  few = p.few;
  shared = p.shared;
  given = λ d m. Memᴰ.tail (p.given d m);
  idle = p.idle;
  most = elim p.most [
    | inl e ↦ inl e
    | inr f ↦ inr (λ d m. elim (Memᴰ.cases_cons m) [
      | inl q ↦ rw q (inr (skipped-Waits limits running picked c h))
      | inr n ↦ f d n
    ])
  ];
}

module _ (limits : Limits) (running : Dict ℕ) (c : Candidate) (picked : List Candidate) where
  abbrev counted : Dict ℕ
  counted = insert c.project (suc (count c.project running)) running

  -- What is counted of a project does not depend on when the candidate is counted.
  count-counted :
      (name : Text)
      → count name counted + of_project name picked
        ≡ count name running + of_project name (c ∷ picked)
  count-counted name = elim (Bool-cases (text_eq c.project name)) [
    | inl e ↦
        let q : c.project ≡ name = (text_eq_iff c.project name).0 e in
        let same : count c.project running ≡ count name running = ap (λ k. count k running) q in
        let n : count name counted ≡ suc (count c.project running) =
          count-insert c.project name running
          ∙ ap (λ (b : Bool). if b then suc (count c.project running) else count name running) e in
        rw e (omega (arith, n, same))
    | inr e ↦
        let n : count name counted ≡ count name running =
          count-insert c.project name running
          ∙ ap (λ (b : Bool). if b then suc (count c.project running) else count name running) e in
        rw e (omega (arith, n))
  ]

  counted-Waits :
      (d : Candidate) → Waits limits counted picked d → Waits limits running (c ∷ picked) d
  counted-Waits d (inl e) = inl e
  counted-Waits d (inr (inl e)) = inr (inl e)
  counted-Waits d (inr (inr l)) = inr (inr (omega (arith, l, count-counted d.project)))

  module _ (h : is_skipped limits running c ≡ false) where
    -- What the test says of a candidate that is taken.
    taken_tests :
        (one_of limits.running_set c.task.id ≡ false)
        × (sleeps limits c ≡ false)
        × (leb limits.max_per_project (count c.project running) ≡ false)
    unfolding is_skipped
    taken_tests = (ground (arith, h), ground (arith, h), ground (arith, h))

    taken_room : count c.project running < limits.max_per_project
    taken_room = let (a, b, l) = taken_tests in ground (arith, l)

    IsPicked-take :
        (left : ℕ) (cs : List Candidate)
        → IsPicked limits left counted cs picked
        → IsPicked limits (suc left) running (c ∷ cs) (c ∷ picked)
    IsPicked-take left cs p = record {
      few = omega (arith, p.few);
      shared = λ name. elim (p.shared name) [
        | inr l ↦ inr (omega (arith, l, count-counted name))
        | inl e ↦ elim (Bool-cases (text_eq c.project name)) [
          | inr f ↦ rw f (inl e)
          | inl t ↦
              let same : count c.project running ≡ count name running =
                ap (λ k. count k running) ((text_eq_iff c.project name).0 t) in
              rw t (inr (omega (arith, e, same, taken_room)))
        ]
      ];
      given =
          λ d m. elim (Memᴰ.cases_cons m) [ inl q ↦ Memᴰ.head q | inr n ↦ Memᴰ.tail (p.given d n) ];
      idle = λ d m. elim (Memᴰ.cases_cons m) [
        | inl q ↦ rw q (taken_tests.0, taken_tests.1)
        | inr n ↦ p.idle d n
      ];
      most = elim p.most [
        | inl e ↦ inl (omega (arith, e))
        | inr f ↦ inr (λ d m. elim (Memᴰ.cases_cons m) [
          | inl q ↦ inl (Memᴰ.head q)
          | inr n ↦ elim (f d n) [ inl i ↦ inl (Memᴰ.tail i) | inr w ↦ inr (counted-Waits d w) ]
        ])
      ];
    }

pick-IsPicked :
    (limits : Limits) (slots : ℕ) (running : Dict ℕ) (cs : List Candidate)
    → IsPicked limits slots running cs (pick limits slots running cs)
unfolding pick
pick-IsPicked limits zero running cs = record {
  few = omega arith;
  shared = λ name. inl refl;
  given = λ c m. absurd (Memᴰ.not-nil m);
  idle = λ c m. absurd (Memᴰ.not-nil m);
  most = inl refl;
}
pick-IsPicked limits (suc left) running [] = record {
  few = omega arith;
  shared = λ name. inl refl;
  given = λ c m. m;
  idle = λ c m. absurd (Memᴰ.not-nil m);
  most = inr (λ c m. inl m);
}
pick-IsPicked limits (suc left) running (c ∷ cs) =
    let next = insert c.project (suc (count c.project running)) running in
    elim (Bool-cases (is_skipped limits running c)) [
      | inl e ↦
          rw (e, pick)
            (IsPicked-skip limits (suc left) running c cs _ e
              (pick-IsPicked limits (suc left) running cs))
      | inr e ↦
          rw (e, pick)
            (IsPicked-take limits running c (pick limits left next cs) e left cs
              (pick-IsPicked limits left next cs))
    ]

-- A deferred candidate, where another one is not.
abbrev pub StandsBack : List Candidate → Candidate → Type 0
StandsBack cs c = (c.deferred ≡ true) × ((d : Candidate) × Memᴰ d cs × (d.deferred ≡ false))

any_work :
    (cs : List Candidate)
    → (any (λ c. not c.deferred) cs ≡ true)
    → (d : Candidate) × Memᴰ d cs × (d.deferred ≡ false)
any_work cs h =
    let (d, m, e) = any-elim (λ c. not c.deferred) cs h in (d, m, not-eq_true d.deferred e)

no_work :
    (cs : List Candidate)
    → any (λ c. not c.deferred) cs ≡ false
    → (c : Candidate) → ¬ StandsBack cs c
no_work cs h c (e, (d, m, f)) =
    let t : not d.deferred ≡ true = rw f refl in
    let g = any-intro (λ c. not c.deferred) cs d m t in absurd (cc (g, h))

-- What is dropped is deferred, and there is something else to do; what is kept does not stand back.
drop_deferred-In :
    (cs : List Candidate) (c : Candidate)
    → (Memᴰ c (drop_deferred cs) → Memᴰ c cs × ¬ StandsBack cs c)
      × (Memᴰ c cs → Memᴰ c (drop_deferred cs) ⊎ StandsBack cs c)
unfolding drop_deferred
drop_deferred-In cs c = elim (Bool-cases (any (λ c. not c.deferred) cs)) [
  | inl e ↦ rw e (
    λ m.
        let (i, t) = In-select (λ c. not c.deferred) cs c m in
        (i, λ b. let f = not-eq_true c.deferred t in absurd (cc (f, b.0))),
    λ m. elim (Bool-cases c.deferred) [
      | inl d ↦ inr (d, any_work cs e)
      | inr d ↦ inl (select-In (λ c. not c.deferred) cs c m (rw d refl))
    ],
  )
  | inr e ↦ rw e (λ m. (m, no_work cs e c), λ m. inl m)
]

pub record IsScanned (limits : Limits) (slots : ℕ) (running : Dict ℕ) (cs picked : List Candidate)
    : Type 0 where
  pub few : length picked ≤ slots
  pub shared :
      (name : Text)
      → (of_project name picked ≡ 0)
        ⊎ (count name running + of_project name picked ≤ limits.max_per_project)
  pub fit :
      (c : Candidate)
      → Memᴰ c picked
      → Memᴰ c cs
        × ¬ StandsBack cs c
        × (one_of limits.running_set c.task.id ≡ false)
        × (sleeps limits c ≡ false)
  pub most :
      (length picked ≡ slots)
      ⊎ ((c : Candidate)
          → Memᴰ c cs
          → Memᴰ c picked ⊎ (Waits limits running picked c ⊎ StandsBack cs c))

-- A tick picks at most as many of the ready tasks as it has slots, and no more of a project than may run beside
-- those that run. It picks no task that runs already, none of a species that hibernates, unless it is of
-- golf-directory, and no deferred one while another is ready. Where it fills fewer than the slots, every ready
-- task that is not picked is kept back by one of these reasons.
pub scan-IsScanned :
    (limits : Limits) (slots : ℕ) (running : Dict ℕ) (cs : List Candidate)
    → IsScanned limits slots running cs (scan limits slots running cs)
unfolding scan
scan-IsScanned limits slots running cs =
    let ordered = sort_by candidate_less (drop_deferred cs) in
    let p = pick-IsPicked limits slots running ordered in
    record {
      few = p.few;
      shared = p.shared;
      fit = λ c m.
          let i = In-sort_by candidate_less (drop_deferred cs) c (p.given c m) in
          let (j, s) = (drop_deferred-In cs c).0 i in let (a, b) = p.idle c m in (j, s, a, b);
      most = elim p.most [
        | inl e ↦ inl e
        | inr f ↦ inr (λ c m. elim ((drop_deferred-In cs c).1 m) [
          | inr s ↦ inr (inr s)
          | inl i ↦ elim (f c (sort_by-In candidate_less (drop_deferred cs) c i)) [
            | inl j ↦ inl j
            | inr w ↦ inr (inl w)
          ]
        ])
      ];
    }
