-- ===== src/Dispatcher/Ids.antt =====
-- The ids of workflows: a task id, a dash, and the time of the start in seconds.
use chum.Base.{
  ℕ, ◌≡◌, refl, ◌∙◌, Bool, true, false, ◌&&◌, List, [], ◌∷◌, Memᴰ, ◌++◌, Option, none, some, arith,
  if◌then◌else◌, leb, eqb, all, length,
}
use chum.Text.{Text, text, text_eq, is_empty}
use chum.Text.Trim.{trim_space}

-- The text before the last byte `c` and the text behind it: strings.LastIndex.
unfoldable pub last_cut : ℕ → Text → Option (Text × Text)
last_cut c [] = none
last_cut c (x ∷ xs) = elim (last_cut c xs) [
  | some (l, r) ↦ some (x ∷ l, r)
  | none ↦ if eqb x c then some ([], xs) else none
]

-- strings.HasSuffix and strings.TrimSuffix at once.
unfoldable pub strip_suffix : Text → Text → Option Text
strip_suffix suffix [] = if is_empty suffix then some [] else none
strip_suffix suffix (x ∷ xs) =
    let rest = strip_suffix suffix xs in
    if text_eq (x ∷ xs) suffix then some [] else elim rest [ none ↦ none | some t ↦ some (x ∷ t) ]

abbrev pub lane_suffixes : List Text
lane_suffixes = text "-direct" ∷ text "-cambrian" ∷ text "-planning" ∷ text "-turtle" ∷ []

-- The first of the suffixes that the id has is taken off.
unfoldable pub strip_lane : List Text → Text → Text
strip_lane [] id = id
strip_lane (s ∷ suffixes) id =
    let rest = strip_lane suffixes id in elim (strip_suffix s id) [ none ↦ rest | some t ↦ t ]

abbrev pub is_digit : ℕ → Bool
is_digit c = leb 48 c && leb c 57

-- A time stamp: digits, and no fewer than eight.
abbrev pub is_stamp : Text → Bool
is_stamp s = all is_digit s && leb 8 (length s)

-- What becomes of an id that was cut at its last dash.
abbrev pub task_of : Text → Option (Text × Text) → Text
task_of id none = id
task_of id (some ([], r)) = id
task_of id (some (x ∷ l, r)) = if is_stamp r then strip_lane lane_suffixes (x ∷ l) else id

unfoldable pub extract_task_id_from_workflow_id : Text → Text
extract_task_id_from_workflow_id wf_id =
    let id = trim_space wf_id in if is_empty id then [] else task_of id (last_cut 45 id)

-- Digits hold no dash.
last_cut-digits : (s : Text) → all is_digit s ≡ true → last_cut 45 s ≡ none
unfolding last_cut
last_cut-digits [] h = refl
last_cut-digits (x ∷ xs) h =
    let d : is_digit x ≡ true = ground (arith, h) in
    let t : all is_digit xs ≡ true = ground (arith, h) in
    let e : eqb x 45 ≡ false = ground (arith, d) in rw (last_cut-digits xs t, e) refl

last_cut-append :
    (id stamp : Text)
    → all is_digit stamp ≡ true
    → last_cut 45 (id ++ 45 ∷ stamp) ≡ some (id, stamp)
unfolding last_cut
last_cut-append [] stamp h = rw (last_cut-digits stamp h) refl
last_cut-append (x ∷ id) stamp h = rw (last_cut-append id stamp h) refl

extract-id :
    (id stamp : Text)
    → is_empty id ≡ false
    → is_stamp stamp ≡ true
    → trim_space (id ++ 45 ∷ stamp) ≡ id ++ 45 ∷ stamp
    → extract_task_id_from_workflow_id (id ++ 45 ∷ stamp) ≡ strip_lane lane_suffixes id
unfolding extract_task_id_from_workflow_id
extract-id [] stamp n h t = cc n
extract-id (x ∷ id) stamp n h t =
    let d : all is_digit stamp ≡ true = ground (arith, h) in
    rw (t, last_cut-append (x ∷ id) stamp d, h) refl

strip_lane-none :
    (suffixes : List Text) (id : Text)
    → ((s : Text) → Memᴰ s suffixes → strip_suffix s id ≡ none)
    → strip_lane suffixes id ≡ id
unfolding strip_lane
strip_lane-none [] id h = refl
strip_lane-none (s ∷ suffixes) id h =
    rw (h s (Memᴰ.head refl), strip_lane) (strip_lane-none suffixes id (λ t m. h t (Memᴰ.tail m)))

-- The id of a workflow, made of a trimmed task id, a dash and a time stamp of at least eight digits, leads
-- back to the task id, if that is not empty and ends with none of the suffixes -direct, -cambrian,
-- -planning and -turtle.
pub extract-round_trip :
    (id stamp : Text)
    → is_empty id ≡ false
    → is_stamp stamp ≡ true
    → trim_space (id ++ 45 ∷ stamp) ≡ id ++ 45 ∷ stamp
    → ((s : Text) → Memᴰ s lane_suffixes → strip_suffix s id ≡ none)
    → extract_task_id_from_workflow_id (id ++ 45 ∷ stamp) ≡ id
extract-round_trip id stamp n h t k = extract-id id stamp n h t ∙ strip_lane-none lane_suffixes id k
