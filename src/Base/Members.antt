-- ===== src/Base/Members.antt =====
-- The elements of a list, and what holds of all of them.
use garuda_codec.Base.Lists.{All, All-of_mem}
use mathlib.Core.List.{List, [], ◌∷◌, map, Memᴰ}
use mathlib.Core.Path.{ap}

pub mem-map {ℓ κ} :
    {A : Type ℓ} {B : Type κ} (f : A → B) (xs : List A) (x : A) → Memᴰ x xs → Memᴰ (f x) (map f xs)
mem-map f [] x m = elim m [ ]
mem-map f (y ∷ xs) x (Memᴰ.head e) = Memᴰ.head (ap f e)
mem-map f (y ∷ xs) x (Memᴰ.tail m) = Memᴰ.tail (mem-map f xs x m)

pub All-map_intro {ℓ κ μ} :
    {A : Type ℓ} {B : Type κ} (f : A → B) (P : B → Type μ) (xs : List A)
    → All (λ x. P (f x)) xs
    → All P (map f xs)
All-map_intro f P [] h = tt
All-map_intro f P (x ∷ xs) h = (h.0, All-map_intro f P xs h.1)

pub All-self {ℓ} : {A : Type ℓ} (xs : List A) → All (λ x. Memᴰ x xs) xs
All-self xs = All-of_mem (λ x. Memᴰ x xs) xs (λ x m. m)

pub All_mem {ℓ κ} : {A : Type ℓ} (P : A → Type κ) (xs : List A) (a : A) → All P xs → Memᴰ a xs → P a
All_mem P [] a h m = elim m [ ]
All_mem P (x ∷ xs) a h (Memᴰ.head e) = rw e h.0
All_mem P (x ∷ xs) a h (Memᴰ.tail m) = All_mem P xs a h.1 m
