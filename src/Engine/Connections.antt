-- ===== src/Engine/Connections.antt =====
-- How the gRPC requester spreads its calls over its connections.
use native.Mathlib.Nat.{mul-add}
use handling_50k_requestes_p.Prelude.{
  ℕ, zero, suc, ◌+◌, ◌-◌, ◌*◌, ◌/◌, ◌%◌, ◌^◌, ◌<◌, ◌≡◌, ◌≢◌, sym, ap, ◌∙◌, true, List, [], ◌∷◌,
  some, ℤ, arith, length, get_or, leb, Bool-cases, inl, inr,
}
use handling_50k_requestes_p.Engine.Transport.{
  GrpcRequester, Checked, connection_count, new_grpc_requester, grpc_do, grpc_do_all,
}

pub mul_split : (n small d big : ℕ) → small + d ≡ big → n * big ≡ n * small + n * d
mul_split n small d big e = ap (λ x. n * x) (sym e) ∙ mul-add n small d

quotients_differ : (n p q r : ℕ) → n * p + r < n * q + r → n * q + r < n * p + r + n → ⊥
quotients_differ n p q r lt near = elim (Bool-cases (leb q p)) [
  | inl le ↦ let h = mul_split n q (p - q) p (ground arith) in omega (arith, h)
  | inr gt ↦
      let h = mul_split n (p + 1) (q - (p + 1)) q (ground arith) in
      let k = mul-add n p 1 in omega (arith, h, k)
]

-- Two numbers that differ by less than n have different remainders.
remainders_differ : (n a b : ℕ) → a < b → b < a + n → a % n ≢ b % n
remainders_differ n a b lt near same =
    quotients_differ n (a / n) (b / n) (a % n) (grind (arith, same)) (grind (arith, same))

get_or-grpc_do_all :
    (cs : List Checked) (g : GrpcRequester) (i : ℕ)
    → i < length cs
    → g.next + length cs < 2 ^ 64
    → get_or (grpc_do_all cs g) i 0 ≡ (g.next + 1 + i) % g.clients
unfolding grpc_do_all grpc_do
get_or-grpc_do_all [] g i h small = absurd (omega arith)
get_or-grpc_do_all (c ∷ cs) g zero h small = ap (λ n. n % g.clients) (omega arith)
get_or-grpc_do_all (c ∷ cs) g (suc i) h small =
    get_or-grpc_do_all cs (grpc_do c g).1 i (omega arith) (omega arith)
    ∙ ap (λ n. n % g.clients) (omega arith)

some_connection : (connections concurrency : ℤ) → 0 < connection_count connections concurrency
unfolding connection_count
some_connection connections concurrency = ground arith

new_grpc_requester-fresh :
    (connections concurrency : ℤ) (g : GrpcRequester)
    → new_grpc_requester connections concurrency true ≡ some g
    → (g.next ≡ 0) × (g.clients ≡ connection_count connections concurrency)
unfolding new_grpc_requester
new_grpc_requester-fresh connections concurrency g made = (ground arith, ground arith)

-- For a requester that was made, and a sequence of fewer than 2^64 calls: each call uses one of the
-- connections, of which there is at least one, and a later call that is fewer than the number of
-- connections behind it uses another.
connections_share :
    (connections concurrency : ℤ) (g : GrpcRequester) (cs : List Checked) (i : ℕ)
    → new_grpc_requester connections concurrency true ≡ some g
    → length cs < 2 ^ 64
    → i < length cs
    → (get_or (grpc_do_all cs g) i 0 < g.clients)
      × ((j : ℕ)
          → i < j
          → j < i + g.clients
          → j < length cs
          → get_or (grpc_do_all cs g) i 0 ≢ get_or (grpc_do_all cs g) j 0)
connections_share connections concurrency g cs i made few inside =
    let (fresh, count) = new_grpc_requester-fresh connections concurrency g made in
    let some_clients = some_connection connections concurrency in
    let used = get_or-grpc_do_all cs g i inside (omega (arith, fresh)) in
    (
      rw used (grind (arith, some_clients, count)),
      λ j lt near within same.
          let later = get_or-grpc_do_all cs g j within (omega (arith, fresh)) in
          remainders_differ g.clients (g.next + 1 + i) (g.next + 1 + j) (omega arith) (omega arith)
            (sym used ∙ same ∙ later),
    )
