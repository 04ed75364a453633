-- ===== src/Socket/Sample.antt =====
-- An operating system that is the list of its open descriptors, and knows the interfaces whose
-- names are not empty.
use garuda_codec.Base.{
  ℕ, suc, ◌+◌, ◌==◌, ◌<◌, ◌≡◌, refl, arith, ◌||◌, ◌&&◌, not, Bool, true, false, if◌then◌else◌, List,
  [], ◌∷◌, length, Option, none, some,
}
use garuda_codec.Io.{not_found}
use garuda_codec.Socket.{Libc, SockaddrLl}
use garuda_codec.Socket.Descriptors.{IsLibc}

abbrev pub elem : ℕ → List ℕ → Bool
elem x [] = false
elem x (y ∷ ys) = x == y || elem x ys

abbrev total : List ℕ → ℕ
total [] = 0
total (y ∷ ys) = y + total ys

abbrev remove : ℕ → List ℕ → List ℕ
remove fd [] = []
remove fd (y ∷ ys) = if y == fd then remove fd ys else y ∷ remove fd ys

elem_above : (x : ℕ) (ys : List ℕ) → total ys < x → elem x ys ≡ false
elem_above x [] h = refl
elem_above x (y ∷ ys) h = ground (arith, elem_above x ys (omega arith))

elem-remove : (x fd : ℕ) (ys : List ℕ) → elem x (remove fd ys) ≡ (not (x == fd) && elem x ys)
elem-remove x fd [] = ground arith
elem-remove x fd (y ∷ ys) = ground (arith, elem-remove x fd ys)

abbrev close_fd : Option ℕ → List ℕ → Bool × List ℕ
close_fd none os = (false, os)
close_fd (some fd) os = (true, remove fd os)

abbrev sent_to : Option ℕ → List ℕ → SockaddrLl → List ℕ → Option ℕ × List ℕ
sent_to none buf address os = (none, os)
sent_to (some fd) buf address os = (some (length buf), os)

abbrev pub listed : Libc
listed = record {
  Os = List ℕ;
  last_os_error = λ os. not_found;
  socket = λ family kind protocol os. (some (suc (total os)), suc (total os) ∷ os);
  if_nametoindex = λ name os. (length name, os);
  bind = λ fd address os. (false, os);
  set_rcvtimeo = λ fd secs usecs os. (true, os);
  sendto = sent_to;
  recvfrom = λ fd room os. (some [], os);
  close = close_fd;
  dup = λ fd os. (none, os);
}

some_injective : (a b : ℕ) → ◌≡◌ {A = Option ℕ} (some a) (some b) → a ≡ b
some_injective a b e = cc

pub listed-IsLibc : IsLibc listed
listed-IsLibc = record {
  is_open = λ os x. elem x os;
  socket_fresh = λ family kind protocol os fd e.
      rw (← some_injective _ _ e) (elem_above (suc (total os)) os (omega arith));
  socket_opens = λ family kind protocol os fd x e. rw (← some_injective _ _ e) refl;
  if_nametoindex_keeps = λ name os x. refl;
  bind_keeps = λ fd address os x. refl;
  set_rcvtimeo_keeps = λ fd secs usecs os x. refl;
  close_closes = λ fd os x. elem-remove x fd os;
}
