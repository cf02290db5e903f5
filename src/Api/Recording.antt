-- ===== src/Api/Recording.antt =====
-- The status recorder reports the status that the client gets.
use handling_50k_requestes_p.Prelude.{
  true, false, some, none, ℕ, ◌+◌, ◌≤◌, ◌≡◌, refl, ap, ◌∙◌, Bool, ◌||◌, List, [], ◌∷◌, ◌++◌, arith,
  leb, ◌==◌, if◌then◌else◌,
}
use handling_50k_requestes_p.Api.{
  Call, write_header, write, Recorder, new_recorder, recorder_call, recorder_calls, instrument,
}

-- The status that net/http sends: the first WriteHeader decides, a Write before it sends 200, and so
-- does the end of a handler that did neither.
abbrev pub sent_status : List Call → ℕ
sent_status [] = 200
sent_status (write_header code ∷ cs) = code
sent_status (write b n ∷ cs) = 200

-- net/http sends no informational status as the answer, and panics below 100.
abbrev pub Final : List Call → Type 0
Final [] = Unit {0}
Final (write_header code ∷ cs) = (200 ≤ code) × Final cs
Final (write b n ∷ cs) = Final cs

abbrev pub sent_bytes : List Call → ℕ
sent_bytes [] = 0
sent_bytes (write_header code ∷ cs) = sent_bytes cs
sent_bytes (write b n ∷ cs) = n + sent_bytes cs

append_nil : (xs : List Call) → xs ≡ xs ++ []
append_nil [] = refl
append_nil (x ∷ xs) = ap (λ zs. x ∷ zs) (append_nil xs)

append_assoc :
    (xs : List Call) (y : Call) (ys : List Call) → (xs ++ (y ∷ [])) ++ ys ≡ xs ++ (y ∷ ys)
append_assoc [] y ys = refl
append_assoc (x ∷ xs) y ys = ap (λ zs. x ∷ zs) (append_assoc xs y ys)

settled :
    (r : Recorder) (cs : List Call) → 200 ≤ r.code → Final cs → (recorder_calls r cs).code ≡ r.code
unfolding recorder_calls recorder_call
settled r [] h f = refl
settled r (write_header code ∷ cs) h f =
    ground (arith, settled (recorder_call r (write_header code)) cs)
settled r (write b n ∷ cs) h f = ground (arith, settled (recorder_call r (write b n)) cs)

first_call :
    (cs : List Call)
    → Final cs
    → (if (recorder_calls new_recorder cs).code == 0
        then 200
        else (recorder_calls new_recorder cs).code)
      ≡ sent_status cs
unfolding recorder_calls recorder_call
first_call [] f = refl
first_call (write_header code ∷ cs) f =
    ground (arith, settled (recorder_call new_recorder (write_header code)) cs)
first_call (write b n ∷ cs) f = ground (arith, settled (recorder_call new_recorder (write b n)) cs)

recorded_bytes :
    (r : Recorder) (cs : List Call) → (recorder_calls r cs).bytes ≡ r.bytes + sent_bytes cs
unfolding recorder_calls recorder_call
recorded_bytes r [] = omega arith
recorded_bytes r (write_header code ∷ cs) =
    omega (arith, recorded_bytes (recorder_call r (write_header code)) cs)
recorded_bytes r (write b n ∷ cs) = omega (arith, recorded_bytes (recorder_call r (write b n)) cs)

passed_on : (r : Recorder) (cs : List Call) → (recorder_calls r cs).writer ≡ r.writer ++ cs
unfolding recorder_calls recorder_call
passed_on r [] = append_nil r.writer
passed_on r (write_header code ∷ cs) =
    passed_on (recorder_call r (write_header code)) cs
    ∙ append_assoc r.writer (write_header code) cs
passed_on r (write b n ∷ cs) =
    passed_on (recorder_call r (write b n)) cs ∙ append_assoc r.writer (write b n) cs

-- For every handler that sends no informational status: its calls reach the underlying writer in
-- order, the status in the metrics and the log is the one that net/http sends, the bytes are those
-- written, and the request is counted and, if the status is 500 or more, logged as a warning. If it
-- panics after these calls, they have reached the writer, and the request is neither counted nor
-- logged.
pub instrument_status :
    (requests : ℕ) (sampled : Bool) (cs : List Call)
    → Final cs
    → let i = instrument requests sampled false cs in
      let p = instrument requests sampled true cs in
      (i.status ≡ some (sent_status cs))
      × (i.recorder.writer ≡ cs)
      × (i.recorder.bytes ≡ sent_bytes cs)
      × (i.requests ≡ requests + 1)
      × (i.logged ≡ (leb 500 (sent_status cs) || sampled))
      × (i.warned ≡ leb 500 (sent_status cs))
      × (p.recorder.writer ≡ cs)
      × (p.status ≡ none)
      × (p.requests ≡ requests)
      × (p.logged ≡ false)
unfolding instrument
instrument_status requests sampled cs f =
    let e = first_call cs f in
    (
      ap some e,
      passed_on new_recorder cs,
      recorded_bytes new_recorder cs ∙ omega arith,
      refl,
      ap (λ (n : ℕ). leb 500 n || sampled) e,
      ap (λ (n : ℕ). leb 500 n) e,
      passed_on new_recorder cs,
      refl,
      refl,
      refl,
    )
