-- ===== src/Requests/Overdue.antt =====
-- The map of an engine's requests, and which of them are overdue (src/engine.cpp).
use zway_lib.Base.{
  ℕ, suc, ◌≡◌, ◌≤◌, ◌<◌, refl, Option, none, some, [], ◌∷◌, ◌==◌, if◌then◌else◌, arith,
}
use zway_lib.Requests.{
  Request, Requests, Engine, find_request, set_request, erase_request, overdue, expired, checked,
  erase_all, process,
}

-- The keys grow from `lo` on, and each is its request's id.
abbrev pub From : ℕ → Requests → Type 0
From lo [] = Unit {0}
From lo ((k, r) ∷ l) = (lo ≤ k) × (r.m_id ≡ k) × From (suc k) l

abbrev pub IsTable : Requests → Type 0
IsTable l = From 0 l

From-le : (m lo : ℕ) (l : Requests) → m ≤ lo → From lo l → From m l
From-le m lo [] h f = tt
From-le m lo ((k, r) ∷ l) h f = (omega arith, f.1, f.2)

pub set_request-From :
    (lo id : ℕ) (r : Request) (l : Requests)
    → lo ≤ id
    → r.m_id ≡ id
    → From lo l
    → From lo (set_request id r l)
unfolding set_request
set_request-From lo id r [] h e f = (h, e, tt)
set_request-From lo id r ((k, q) ∷ l) h e f =
    ground (arith, set_request-From (suc k) id r l, From-le (suc id) (suc k) l)

pub erase_request-From : (lo id : ℕ) (l : Requests) → From lo l → From lo (erase_request id l)
unfolding erase_request
erase_request-From lo id [] f = tt
erase_request-From lo id ((k, r) ∷ l) f =
    ground (arith, erase_request-From (suc k) id l f.2, From-le lo (suc k) l)

-- Nothing is found under an id before all.
find_request-From : (id lo : ℕ) (l : Requests) → id < lo → From lo l → find_request id l ≡ none
unfolding find_request
find_request-From id lo [] h f = refl
find_request-From id lo ((k, r) ∷ l) h f = ground (arith, find_request-From id (suc k) l)

pub find-set_request :
    (id j : ℕ) (r : Request) (l : Requests)
    → find_request j (set_request id r l) ≡ (if j == id then some r else find_request j l)
unfolding find_request set_request
find-set_request id j r [] = refl
find-set_request id j r ((k, q) ∷ l) = ground (arith, find-set_request id j r l)

pub find-erase_request :
    (id j lo : ℕ) (l : Requests)
    → From lo l
    → find_request j (erase_request id l) ≡ (if j == id then none else find_request j l)
unfolding find_request erase_request
find-erase_request id j lo [] f = ground arith
find-erase_request id j lo ((k, r) ∷ l) f =
    ground (arith, find-erase_request id j (suc k) l f.2, find_request-From j (suc k) l)

pub find_request-id :
    (id lo : ℕ) (r : Request) (l : Requests) → From lo l → find_request id l ≡ some r → r.m_id ≡ id
unfolding find_request
find_request-id id lo r [] f e = absurd (ground (arith, e))
find_request-id id lo r ((k, q) ∷ l) f e = ground (arith, find_request-id id (suc k) r l f.2, e)

-- What is left of a request that is found at a time.
abbrev pub unless_overdue : ℕ → Option Request → Option Request
unless_overdue time none = none
unless_overdue time (some r) = if overdue time r then none else some r

-- The requests that are not overdue.
abbrev unexpired : ℕ → Requests → Requests
unexpired time [] = []
unexpired time ((k, r) ∷ l) = if overdue time r then unexpired time l else (k, r) ∷ unexpired time l

-- Requests behind an entry leave it where it is.
erase_all-expired :
    (time k lo : ℕ) (q : Request) (l m : Requests)
    → k < lo
    → From lo l
    → erase_all (expired time l) ((k, q) ∷ m) ≡ (k, q) ∷ erase_all (expired time l) m
unfolding erase_all expired erase_request
erase_all-expired time k lo q [] m h f = refl
erase_all-expired time k lo q ((j, r) ∷ l) m h f = ground (
  arith,
  erase_all-expired time k (suc j) q l m (omega arith) f.2,
  erase_all-expired time k (suc j) q l (erase_request r.m_id m) (omega arith) f.2,
)

erase_all-checked :
    (time lo : ℕ) (l : Requests)
    → From lo l
    → erase_all (expired time l) (checked time l) ≡ unexpired time l
unfolding erase_all expired checked erase_request
erase_all-checked time lo [] f = refl
erase_all-checked time lo ((k, r) ∷ l) f = ground (
  arith,
  erase_all-checked time (suc k) l f.2,
  erase_all-expired time k (suc k) r l (checked time l) (omega arith) f.2,
)

unexpired-From : (time lo : ℕ) (l : Requests) → From lo l → From lo (unexpired time l)
unexpired-From time lo [] f = tt
unexpired-From time lo ((k, r) ∷ l) f =
    ground (arith, unexpired-From time (suc k) l f.2, From-le lo (suc k) (unexpired time l))

find-unexpired :
    (time id lo : ℕ) (l : Requests)
    → From lo l
    → find_request id (unexpired time l) ≡ unless_overdue time (find_request id l)
unfolding find_request
find-unexpired time id lo [] f = refl
find-unexpired time id lo ((k, r) ∷ l) f =
    ground (arith, find-unexpired time id (suc k) l f.2, find_request-From id (suc k) l)

-- `process` at any time, on requests that stand under their own ids in order: they stand so again,
-- the senders are left alone, and a request is found under an id just if it was found before and is
-- not overdue, and then as it was.
pub process-IsTable :
    (time id : ℕ) (e : Engine)
    → IsTable e.m_requests
    → IsTable (process time e).0.m_requests
      × ((process time e).0.m_stream_senders ≡ e.m_stream_senders)
      × (find_request id (process time e).0.m_requests
          ≡ unless_overdue time (find_request id e.m_requests))
unfolding process
process-IsTable time id e f =
    rw (erase_all-checked time 0 e.m_requests f)
      (unexpired-From time 0 e.m_requests f, refl, find-unexpired time id 0 e.m_requests f)
