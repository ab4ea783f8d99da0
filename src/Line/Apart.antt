-- ===== src/Line/Apart.antt =====
-- Membership in the lists of addresses, and the paths that a `LINK_NODES` leaves alone.
use ed.Common.{
  ◌≡◌, ◌≢◌, refl, true, false, ◌||◌, List, [], ◌∷◌, ◌++◌, arith, append-nil, append_assoc,
}
use ed.Line.{Ptr, has, Distinct}
use ed.Line.Chain.{last, Off}

pub has-append : (p : Ptr) (xs ys : List Ptr) → has p (xs ++ ys) ≡ (has p xs || has p ys)
has-append p [] ys = refl
has-append p (x ∷ xs) ys = ground (arith, has-append p xs ys)

-- No address stands in both lists.
abbrev pub Apart : List Ptr → List Ptr → Type 0
Apart [] ys = Unit
Apart (x ∷ xs) ys = (has x ys ≡ false) × Apart xs ys

pub Apart-nil : (xs : List Ptr) → Apart xs []
Apart-nil [] = tt
Apart-nil (x ∷ xs) = (refl, Apart-nil xs)

Apart-cons :
    (xs : List Ptr) (y : Ptr) (ys : List Ptr) → has y xs ≡ false → Apart xs ys → Apart xs (y ∷ ys)
Apart-cons [] y ys h a = tt
Apart-cons (x ∷ xs) y ys h a = (ground arith, Apart-cons xs y ys (ground arith) a.1)

pub Apart-symm : (xs ys : List Ptr) → Apart xs ys → Apart ys xs
Apart-symm [] ys a = Apart-nil ys
Apart-symm (x ∷ xs) ys a = Apart-cons ys x xs a.0 (Apart-symm xs ys a.1)

pub Apart-append_right : (xs ys zs : List Ptr) → Apart xs (ys ++ zs) → Apart xs ys × Apart xs zs
Apart-append_right [] ys zs a = (tt, tt)
Apart-append_right (x ∷ xs) ys zs a =
    let (p, q) = Apart-append_right xs ys zs a.1 in
    ((ground (arith, has-append x ys zs), p), (ground (arith, has-append x ys zs), q))

pub Apart-append : (xs ys zs : List Ptr) → Apart xs ys → Apart xs zs → Apart xs (ys ++ zs)
Apart-append [] ys zs a b = tt
Apart-append (x ∷ xs) ys zs a b =
    (ground (arith, has-append x ys zs), Apart-append xs ys zs a.1 b.1)

pub Distinct-split :
    (xs ys : List Ptr) → Distinct (xs ++ ys) → Distinct xs × Distinct ys × Apart xs ys
Distinct-split [] ys d = (tt, d, tt)
Distinct-split (x ∷ xs) ys d =
    let (p, q, r) = Distinct-split xs ys d.1 in
    ((ground (arith, has-append x xs ys), p), q, (ground (arith, has-append x xs ys), r))

pub Distinct-append :
    (xs ys : List Ptr) → Distinct xs → Distinct ys → Apart xs ys → Distinct (xs ++ ys)
Distinct-append [] ys d e a = e
Distinct-append (x ∷ xs) ys d e a =
    (ground (arith, has-append x xs ys), Distinct-append xs ys d.1 e a.1)

pub Apart-last : (p : Ptr) (xs ys : List Ptr) → Apart (p ∷ xs) ys → has (last p xs) ys ≡ false
Apart-last p [] ys a = a.0
Apart-last p (x ∷ xs) ys a = Apart-last x xs ys a.1

pub last-has : (p : Ptr) (xs : List Ptr) → has (last p xs) (p ∷ xs) ≡ true
last-has p [] = ground arith
last-has p (x ∷ xs) = ground (arith, last-has x xs)

pub ne-last : (q p : Ptr) (xs : List Ptr) → has q (p ∷ xs) ≡ false → q ≢ last p xs
ne-last q p [] h = ground arith
ne-last q p (x ∷ xs) h = ne-last q x xs (ground arith)

-- The first node of `ys ++ q ∷ []`, and what follows it.
abbrev pub first : List Ptr → Ptr → Ptr
first [] q = q
first (y ∷ ys) q = y

abbrev pub rest : List Ptr → Ptr → List Ptr
rest [] q = []
rest (y ∷ ys) q = ys ++ q ∷ []

-- A path of other nodes.
pub Off-apart :
    (a b p : Ptr) (xs : List Ptr) → has a (p ∷ xs) ≡ false → has b xs ≡ false → Off a b p xs
Off-apart a b p [] f g = tt
Off-apart a b p (x ∷ xs) f g =
    (ground arith, ground arith, Off-apart a b x xs (ground arith) (ground arith))

-- A path that ends at `a`, the node from which the new link leads.
pub Off-before :
    (b p : Ptr) (xs : List Ptr) → Distinct (p ∷ xs) → has b xs ≡ false → Off (last p xs) b p xs
Off-before b p [] d n = tt
Off-before b p (x ∷ xs) d n =
    (ne-last p x xs d.0, ground arith, Off-before b x xs d.1 (ground arith))

Off-append :
    (a b p q : Ptr) (xs : List Ptr)
    → has a (p ∷ xs) ≡ false
    → has b (xs ++ q ∷ []) ≡ false
    → Off a b p (xs ++ q ∷ [])
Off-append a b p q [] f g = (ground arith, ground arith, tt)
Off-append a b p q (x ∷ xs) f g =
    (ground arith, ground arith, Off-append a b x q xs (ground arith) (ground arith))

-- A path that leads to the end `q`, from which another path may begin.
pub Off-rest :
    (a b q : Ptr) (ys : List Ptr)
    → has a ys ≡ false
    → has b (rest ys q) ≡ false
    → Off a b (first ys q) (rest ys q)
Off-rest a b q [] f g = tt
Off-rest a b q (y ∷ ys) f g = Off-append a b y q ys f g

pub first-rest :
    (xs ys : List Ptr) (q : Ptr) → (xs ++ ys) ++ q ∷ [] ≡ xs ++ (first ys q ∷ rest ys q)
first-rest xs [] q = rw append-nil
first-rest xs (y ∷ ys) q = rw append_assoc

pub first-not_rest :
    (q : Ptr) (ys : List Ptr) → Distinct (q ∷ ys) → has (first ys q) (rest ys q) ≡ false
first-not_rest q [] d = refl
first-not_rest q (y ∷ ys) d = ground (arith, has-append y ys (q ∷ []))

pub has-rest : (p q : Ptr) (ys : List Ptr) → p ≢ q → has p ys ≡ false → has p (rest ys q) ≡ false
has-rest p q [] n h = refl
has-rest p q (y ∷ ys) n h = ground (arith, has-append p ys (q ∷ []))
