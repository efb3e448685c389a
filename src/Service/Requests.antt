-- ===== src/Service/Requests.antt =====
-- latestAppliedRequest: clientId -> requestId, with -1 for a client that has sent nothing.
use mit_distributed_system.Prelude.{
  ℕ, ℤ, pos, negsuc, minus_one, ◌<ℤ◌, ◌≡◌, Bool, true, false, Option, none, some, arith,
  if◌then◌else◌, ==_iff, ◌==◌,
}
use mit_distributed_system.Assoc.{Assoc, lookup, put, lookup-put, nat_key}

abbrev pub Requests : Type 0
Requests = Assoc ℕ ℤ

abbrev pub or_minus_one : Option ℤ → ℤ
or_minus_one none = minus_one
or_minus_one (some r) = r

unfoldable pub latest : ℕ → Requests → ℤ
latest client reqs = or_minus_one (lookup client reqs)

-- if !exist { latestAppliedRequest[clientId] = -1 }
unfoldable pub ensure : ℕ → Requests → Requests
ensure client reqs = elim (lookup client reqs) [ none ↦ put client minus_one reqs | some r ↦ reqs ]

-- The table after a request, and whether the request is new.
unfoldable pub note_request : ℕ → ℤ → Requests → Requests × Bool
note_request client request reqs =
    let known = ensure client reqs in
    if latest client known <ℤ request then (put client request known, true) else (known, false)

pub latest-ensure : (client c : ℕ) (reqs : Requests) → latest c (ensure client reqs) ≡ latest c reqs
unfolding latest ensure
latest-ensure client c reqs = ground (arith, lookup-put client c minus_one reqs, ==_iff client c)

-- A request is new exactly if its number is above the client's latest.
pub note_request-fresh :
    (client : ℕ) (request : ℤ) (reqs : Requests)
    → (note_request client request reqs).1 ≡ (latest client reqs <ℤ request)
unfolding note_request
note_request-fresh client request reqs = ground (arith, latest-ensure client client reqs)

pub latest-put :
    (client c : ℕ) (request : ℤ) (reqs : Requests)
    → latest c (put client request reqs) ≡ (if client == c then request else latest c reqs)
unfolding latest
latest-put client c request reqs = ground (arith, lookup-put client c request reqs)

-- A new request becomes its client's latest; everything else stays.
pub latest-note_request :
    (client c : ℕ) (request : ℤ) (reqs : Requests)
    → latest c (note_request client request reqs).0 ≡ (
        if latest client reqs <ℤ request
        then (if client == c then request else latest c reqs)
        else latest c reqs)
unfolding note_request
latest-note_request client c request reqs = ground (
  arith,
  latest-ensure client client reqs,
  latest-ensure client c reqs,
  latest-put client c request (ensure client reqs),
)

<ℤ_irrefl : (r : ℤ) → (r <ℤ r) ≡ false
<ℤ_irrefl (pos n) = ground arith
<ℤ_irrefl (negsuc n) = ground arith

-- A request that comes a second time is not new.
pub note_request-repeated :
    (client : ℕ) (request : ℤ) (reqs : Requests)
    → (note_request client request (note_request client request reqs).0).1 ≡ false
note_request-repeated client request reqs = ground (
  arith,
  note_request-fresh client request (note_request client request reqs).0,
  latest-note_request client client request reqs,
  <ℤ_irrefl request,
)
