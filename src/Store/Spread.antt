-- ===== src/Store/Spread.antt =====
-- How a pass that takes one ticket of each number spreads over the numbers.
use mathlib.Core.List.{Mem, Nodup, Nodup-cons, mem-cons, mem-cons_of_mem, append_assoc, append-nil}
use mathlib.Core.Logic.Or
use lottery_search_system.Prelude.{ℕ, ◌≡◌, ap, sym, ◌∙◌, subst, List, [], ◌∷◌, ◌++◌, map}
use lottery_search_system.TicketStore.{Reservation}
use lottery_search_system.Store.{Progress}

-- The reservations are of numbers in the list, at most one of each place, in the list's order.
pub data Picks : List ℕ → List Reservation → Type 0 where
  stop : Picks [] []
  skip : (n : ℕ) (ns : List ℕ) (rs : List Reservation) → Picks ns rs → Picks (n ∷ ns) rs
  pick :
      (n : ℕ) (r : Reservation) (ns : List ℕ) (rs : List Reservation)
      → r.number ≡ n
      → Picks ns rs
      → Picks (n ∷ ns) (r ∷ rs)

pub Picks-nil : (ns : List ℕ) → Picks ns []
Picks-nil [] = stop
Picks-nil (n ∷ ns) = skip n ns [] (Picks-nil ns)

pub Picks-append :
    {ms ns : List ℕ} {qs rs : List Reservation}
    → Picks ms qs
    → Picks ns rs
    → Picks (ms ++ ns) (qs ++ rs)
Picks-append stop k = k
Picks-append {ns = ns} {rs = rs} (skip m ms qs h) k =
    skip m (ms ++ ns) (qs ++ rs) (Picks-append h k)
Picks-append {ns = ns} {rs = rs} (pick m r ms qs e h) k =
    pick m r (ms ++ ns) (qs ++ rs) e (Picks-append h k)

abbrev pub numbers_of : List Reservation → List ℕ
numbers_of rs = map (λ (r : Reservation). r.number) rs

Picks-mem :
    {ns : List ℕ} {rs : List Reservation} (m : ℕ) → Picks ns rs → Mem m (numbers_of rs) → Mem m ns
Picks-mem m stop h = h
Picks-mem m (skip n ns rs p) h = mem-cons_of_mem n (Picks-mem m p h)
Picks-mem m (pick n r ns rs e p) h =
    mem-cons.1 (Or.imp (λ same. same ∙ e) (λ later. Picks-mem m p later) (mem-cons.0 h))

-- Of numbers that are all different, the reservations are of different numbers.
pub Picks-Nodup :
    {ns : List ℕ} {rs : List Reservation} → Picks ns rs → Nodup ns → Nodup (numbers_of rs)
Picks-Nodup stop d = d
Picks-Nodup (skip n ns rs p) d = Picks-Nodup p (Nodup-cons.0 d).1
Picks-Nodup (pick n r ns rs e p) d = Nodup-cons.1 (
  (λ m. (Nodup-cons.0 d).0 (subst (λ t. Mem t ns) e (Picks-mem r.number p m))),
  Picks-Nodup p (Nodup-cons.0 d).1,
)

-- From `x` to `y` reservations were added that pick from these numbers.
abbrev pub Adds : Progress → List ℕ → Progress → Type 0
Adds x ns y = (more : List Reservation) × (y.out ≡ x.out ++ more) × Picks ns more

pub Adds-self : (x : Progress) (ns : List ℕ) → Adds x ns x
Adds-self x ns = ([], sym (append-nil x.out), Picks-nil ns)

pub Adds-trans :
    (x y z : Progress) (ms ns : List ℕ) → Adds x ms y → Adds y ns z → Adds x (ms ++ ns) z
Adds-trans x y z ms ns (more, e, p) (later, e', p') = (
  more ++ later,
  e' ∙ ap (λ out. out ++ later) e ∙ append_assoc x.out more later,
  Picks-append p p',
)
