-- ===== src/Stratum/Members.antt =====
-- The connections that the server of p2pearl/stratum/server.py holds.
use p2pearl.Prelude.{
  inl, inr, ℕ, ◌+◌, ◌≤◌, ◌<◌, ◌==◌, if-elim, some, List, [], ◌∷◌, ◌++◌, ◌≡◌, subst, arith,
  Bool-cases, All,
}
use p2pearl.Stratum.Session.{Conn}
use p2pearl.Stratum.Server.{new_conn, find_conn, put_conn, discard_conn}
use p2pearl.Stratum.Payable.{IsPayable, nobody}

-- Numbers go up, from above a bound to at most another.
abbrev pub Ascends : ℕ → List Conn → ℕ → Type 0
Ascends low [] high = low ≤ high
Ascends low (c ∷ cs) high = (low < c.conn_id) × Ascends c.conn_id cs high

-- The numbers of the connections.
Ascends-mono :
    (low : ℕ) (cs : List Conn) (high more : ℕ)
    → high ≤ more
    → Ascends low cs high
    → Ascends low cs more
Ascends-mono low [] high more h a = omega arith
Ascends-mono low (c ∷ cs) high more h a = (a.0, Ascends-mono c.conn_id cs high more h a.1)

Ascends-below :
    (low less : ℕ) (cs : List Conn) (high : ℕ)
    → less ≤ low
    → Ascends low cs high
    → Ascends less cs high
Ascends-below low less [] high h a = omega arith
Ascends-below low less (c ∷ cs) high h a = (omega (arith, a.0), a.1)

pub Ascends-new :
    (low : ℕ) (cs : List Conn) (high : ℕ)
    → Ascends low cs high
    → Ascends low (cs ++ (new_conn (high + 1) ∷ [])) (high + 1)
Ascends-new low [] high a = (omega arith, omega arith)
Ascends-new low (c ∷ cs) high a = (a.0, Ascends-new c.conn_id cs high a.1)

pub Ascends-discard :
    (n low : ℕ) (cs : List Conn) (high : ℕ)
    → Ascends low cs high
    → Ascends low (discard_conn n cs) high
unfolding discard_conn
Ascends-discard n low [] high a = a
Ascends-discard n low (c ∷ cs) high a =
    if-elim (λ x. Ascends low x high) (c.conn_id == n) cs (c ∷ discard_conn n cs)
      (λ _. Ascends-below c.conn_id low cs high (omega (arith, a.0)) a.1)
      (λ _. (a.0, Ascends-discard n c.conn_id cs high a.1))

pub Ascends-put :
    (d : Conn) (low : ℕ) (cs : List Conn) (high : ℕ)
    → Ascends low cs high
    → Ascends low (put_conn d cs) high
unfolding put_conn
Ascends-put d low [] high a = a
Ascends-put d low (c ∷ cs) high a =
    if-elim (λ x. Ascends low x high) (c.conn_id == d.conn_id) (d ∷ cs) (c ∷ put_conn d cs)
      (λ e.
        let same : c.conn_id ≡ d.conn_id = ground arith in
        subst (λ n. (low < n) × Ascends n cs high) same a)
      (λ _. (a.0, Ascends-put d c.conn_id cs high a.1))

abbrev pub Payable : List Conn → Type 0
Payable = All (λ c. IsPayable c.worker_address)

pub Payable-new : (n : ℕ) (cs : List Conn) → Payable cs → Payable (cs ++ (new_conn n ∷ []))
Payable-new n [] h = (nobody, tt)
Payable-new n (c ∷ cs) h = (h.0, Payable-new n cs h.1)

pub Payable-discard : (n : ℕ) (cs : List Conn) → Payable cs → Payable (discard_conn n cs)
unfolding discard_conn
Payable-discard n [] h = h
Payable-discard n (c ∷ cs) h =
    if-elim Payable (c.conn_id == n) cs (c ∷ discard_conn n cs) (λ _. h.1)
      (λ _. (h.0, Payable-discard n cs h.1))

pub Payable-put :
    (d : Conn) (cs : List Conn) → IsPayable d.worker_address → Payable cs → Payable (put_conn d cs)
unfolding put_conn
Payable-put d [] p h = h
Payable-put d (c ∷ cs) p h =
    if-elim Payable (c.conn_id == d.conn_id) (d ∷ cs) (c ∷ put_conn d cs) (λ _. (p, h.1))
      (λ _. (h.0, Payable-put d cs p h.1))

pub find_conn-IsPayable :
    (n : ℕ) (cs : List Conn) (c : Conn)
    → find_conn n cs ≡ some c
    → Payable cs
    → IsPayable c.worker_address
unfolding find_conn
find_conn-IsPayable n [] c e h = absurd (ground arith)
find_conn-IsPayable n (d ∷ cs) c e h = elim (Bool-cases (d.conn_id == n)) [
  | inl here ↦ let same : d ≡ c = ground arith in subst (λ x. IsPayable x.worker_address) same h.0
  | inr later ↦ find_conn-IsPayable n cs c (ground arith) h.1
]
