-- ===== src/Lag.antt =====
-- crates/pool-core/src/lag.rs: the samples of the lag between a template and its notification.
use mathlib.Core.List.{append_assoc, append-nil}
use zcash_mining_pool.Prelude.{
  ℕ, suc, ◌≡◌, refl, ap, sym, ◌∙◌, subst, List, [], ◌∷◌, ◌++◌, ltb, if◌then◌else◌, length,
  length-append, min, arith, Bool-cases, inl, inr,
}

pub data LagKind : Type 0 where
  empty_block full_template : LagKind

-- Times and lags are numbers of milliseconds.
pub record Sample : Type 0 where
  pub recorded_at : ℕ
  pub lag : ℕ
  pub height : ℕ
  pub kind : LagKind

pub record LagTracker : Type 0 where
  pub samples : List Sample
  pub samples_total : ℕ

-- MAX_SAMPLES
abbrev pub max_samples : ℕ
max_samples = 200

abbrev pub new_lag_tracker : LagTracker
new_lag_tracker = record { samples = []; samples_total = 0 }

-- The loop that drops samples from the front.
unfoldable pub trim : ℕ → List Sample → List Sample
trim n [] = []
trim n (x ∷ xs) = let rest = trim n xs in if ltb n (length (x ∷ xs)) then rest else x ∷ xs

-- `record`
unfoldable pub record_sample : Sample → LagTracker → LagTracker
record_sample s t = record {
  samples = trim max_samples (t.samples ++ s ∷ []);
  samples_total = suc t.samples_total;
}

-- The tracker after the samples of a history.
unfoldable pub record_history : List Sample → LagTracker → LagTracker
record_history [] t = t
record_history (s ∷ ss) t = record_history ss (record_sample s t)

-- What is left by `trim` is the end of the list, as long as the list or as the cap.
IsEnd : ℕ → List Sample → List Sample → Type 0
IsEnd n xs ys = (front : List Sample) × (xs ≡ front ++ ys) × (length ys ≡ min n (length xs))

trim-IsEnd : (n : ℕ) (xs : List Sample) → IsEnd n xs (trim n xs)
unfolding trim IsEnd
trim-IsEnd n [] = ([], refl, omega arith)
trim-IsEnd n (x ∷ xs) = elim (Bool-cases (ltb n (length (x ∷ xs)))) [
  | inl e ↦
      let (front, split, len) = trim-IsEnd n xs in
      rw e (x ∷ front, ap (◌∷◌ x) split, ground (arith, len))
  | inr e ↦ rw e ([], refl, ground arith)
]

-- What the tracker holds of a history: its last samples, up to 200, and the number of all.
abbrev pub Holds : List Sample → LagTracker → Type 0
Holds history t =
    (front : List Sample) × (history ≡ front ++ t.samples)
    × (length t.samples ≡ min 200 (length history))
    × (t.samples_total ≡ length history)

record_sample-Holds :
    (past : List Sample) (s : Sample) (t : LagTracker)
    → Holds past t
    → Holds (past ++ s ∷ []) (record_sample s t)
unfolding record_sample IsEnd
record_sample-Holds past s t (front, split, len, total) =
    let (dropped, cut, kept) = trim-IsEnd 200 (t.samples ++ s ∷ []) in
    (
      front ++ dropped,
      ap (λ xs. xs ++ s ∷ []) split
          ∙ append_assoc front t.samples (s ∷ [])
          ∙ ap (◌++◌ front) cut
          ∙ sym (append_assoc front dropped (trim 200 (t.samples ++ s ∷ []))),
      omega (arith, kept, len, length-append t.samples (s ∷ []), length-append past (s ∷ [])),
      omega (arith, total, length-append past (s ∷ [])),
    )

record_history-on :
    (past ss : List Sample) (t : LagTracker)
    → Holds past t
    → Holds (past ++ ss) (record_history ss t)
unfolding record_history
record_history-on past [] t h = subst (λ xs. Holds xs t) (sym (append-nil past)) h
record_history-on past (s ∷ ss) t h =
    subst (λ xs. Holds xs (record_history ss (record_sample s t))) (append_assoc past (s ∷ []) ss)
      (record_history-on (past ++ s ∷ []) ss (record_sample s t) (record_sample-Holds past s t h))

-- After any history of samples the tracker holds the last of them, 200 or as many as there are, in
-- their order, and the number of all.
pub record_history-Holds : (ss : List Sample) → Holds ss (record_history ss new_lag_tracker)
record_history-Holds ss = record_history-on [] ss new_lag_tracker ([], refl, omega arith, refl)
