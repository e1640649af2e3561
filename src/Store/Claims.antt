-- ===== src/Store/Claims.antt =====
-- internal/store/claims.go, on the table claim_leases of internal/store/schema_scheduling.go. Clocks count
-- nanoseconds and columns hold seconds.
pub mod Laws
pub mod Expiry
use chum.Base.{
  ℕ, ◌-◌, ◌/◌, ◌≡◌, refl, Bool, true, false, List, [], ◌∷◌, Option, none, some, if◌then◌else◌, ltb,
  select,
}
use chum.Base.Int.{ℤ, pos, ltb_ℤ, pos_part}
use chum.Base.Result.{Result, ok, err}
use chum.Base.Sort.{sort_by}
use chum.Text.{Text, text, text_eq, text_eq_iff}
use chum.Text.Trim.{trim_space}
use chum.Store.Table.{Key, select_key, upsert, update_key, delete_key}

pub record ClaimLease : Type 0 where
  pub morsel_id : Text
  pub project : Text
  pub morsels_dir : Text
  pub agent_id : Text
  pub dispatch_id : ℤ
  pub claimed_at : ℕ
  pub heartbeat_at : ℕ

abbrev pub by_morsel : Key ClaimLease Text
by_morsel = record { key = λ l. l.morsel_id; eq = text_eq; eq_iff = text_eq_iff }

-- `datetime('now')`.
abbrev pub seconds : ℕ → ℕ
seconds now = now / 1000000000

-- The early return where the trimmed id is empty.
abbrev pub on_id {ℓ} : {T : Type ℓ} → T → (Text → T) → Text → T
on_id missing f [] = missing
on_id missing f (c ∷ id) = f (c ∷ id)

pub on_id-cases {ℓ} :
    {T : Type ℓ} (P : T → Type 0) (missing : T) (f : Text → T) (k : Text)
    → P missing
    → ((c : ℕ) (id : Text) → k ≡ c ∷ id → P (f (c ∷ id)))
    → P (on_id missing f k)
on_id-cases P missing f [] m h = m
on_id-cases P missing f (c ∷ id) m h = h c id refl

-- The values of the INSERT, and what ON CONFLICT makes of a row.
abbrev pub new_lease : ℕ → Text → Text → Text → Text → ClaimLease
new_lease now id project morsels_dir agent_id = record {
  morsel_id = id;
  project = trim_space project;
  morsels_dir = trim_space morsels_dir;
  agent_id = trim_space agent_id;
  dispatch_id = pos 0;
  claimed_at = seconds now;
  heartbeat_at = seconds now;
}

abbrev pub renew_lease : ℕ → Text → Text → Text → ClaimLease → ClaimLease
renew_lease now project morsels_dir agent_id l = record l {
  project = trim_space project;
  morsels_dir = trim_space morsels_dir;
  agent_id = trim_space agent_id;
  heartbeat_at = seconds now;
}

abbrev pub attach_to : ℕ → ℤ → ClaimLease → ClaimLease
attach_to now dispatch_id l = record l { dispatch_id = dispatch_id; heartbeat_at = seconds now }

abbrev pub beat : ℕ → ClaimLease → ClaimLease
beat now l = record l { heartbeat_at = seconds now }

unfoldable pub upsert_claim_lease :
    ℕ → Text → Text → Text → Text → List ClaimLease → Result Text (List ClaimLease)
upsert_claim_lease now morsel_id project morsels_dir agent_id rows =
    on_id (err (text "store: upsert claim lease: morsel_id is required"))
      (λ id. ok (
        upsert by_morsel id (new_lease now id project morsels_dir agent_id)
          (renew_lease now project morsels_dir agent_id) rows))
      (trim_space morsel_id)

unfoldable pub attach_dispatch_to_claim_lease :
    ℕ → Text → ℤ → List ClaimLease → Result Text (List ClaimLease)
attach_dispatch_to_claim_lease now morsel_id dispatch_id rows =
    on_id (err (text "store: attach dispatch to claim lease: morsel_id is required"))
      (λ id. ok (update_key by_morsel id (attach_to now dispatch_id) rows)) (trim_space morsel_id)

unfoldable pub heartbeat_claim_lease : ℕ → Text → List ClaimLease → List ClaimLease
heartbeat_claim_lease now morsel_id rows =
    on_id rows (λ id. update_key by_morsel id (beat now) rows) (trim_space morsel_id)

unfoldable pub delete_claim_lease : Text → List ClaimLease → List ClaimLease
delete_claim_lease morsel_id rows =
    on_id rows (λ id. delete_key by_morsel id rows) (trim_space morsel_id)

unfoldable pub get_claim_lease : Text → List ClaimLease → Option ClaimLease
get_claim_lease morsel_id rows =
    on_id none (λ id. select_key by_morsel id rows) (trim_space morsel_id)

-- `ORDER BY heartbeat_at ASC`.
abbrev pub by_heartbeat : ClaimLease → ClaimLease → Bool
by_heartbeat a b = ltb a.heartbeat_at b.heartbeat_at

unfoldable pub list_claim_leases : List ClaimLease → List ClaimLease
list_claim_leases rows = sort_by by_heartbeat rows

-- The cutoff is cut to seconds, as the columns are.
unfoldable pub get_expired_claim_leases : ℕ → ℤ → List ClaimLease → List ClaimLease
get_expired_claim_leases now ttl rows =
    let cutoff = seconds (now - pos_part ttl) in
    if ltb_ℤ (pos 0) ttl
    then sort_by by_heartbeat (select (λ l. ltb l.heartbeat_at cutoff) rows)
    else []
