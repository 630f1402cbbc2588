-- ===== src/Cleaner/Machine/Triples.antt =====
-- What holds after a command of the cleaner, by its answer.
use remnanode_xhttp_cleaner.Base.{◌≡◌, true, false, ◌∷◌, Outcome, ok, err, Exception, cleaner_error}
use remnanode_xhttp_cleaner.Base.Exec.{handle, raise}
use remnanode_xhttp_cleaner.Base.Exec.Triple.{Ends, Triple, Triple-bind}
use remnanode_xhttp_cleaner.System.{Completed, succeeded}
use remnanode_xhttp_cleaner.Manager.Machine.Triples.{Ends-if}
use remnanode_xhttp_cleaner.Cleaner.Command.{Command}
use remnanode_xhttp_cleaner.Cleaner.Machine.{Host, Machine, explained, run_unchecked, run}

module _ {W : Type 0} (h : Host W) (P : Machine W → Type 0) (Q : Completed → Machine W → Type 0)
    (R : Machine W → Type 0) (c : Command) where
  -- The state after this answer.
  abbrev pub after : Outcome Completed → W → Machine W → Machine W
  after answer w m = record m { world = w; trace = (c, answer) ∷ m.trace }

  pub Triple-run_unchecked :
      ((m : Machine W) (w : W) (done : Completed) → P m → Q done (after (ok done) w m))
      → ((m : Machine W) (w : W) (e : Exception) → P m → R (after (err e) w m))
      → Triple P Q R (run_unchecked h c)
  unfolding run_unchecked
  Triple-run_unchecked q r = record { at = λ m p. go (h.run c m.world).0 (h.run c m.world).1 m p }
    where
      go :
          (a : Outcome Completed) (w : W) (m : Machine W)
          → P m
          → Ends Q R
              (handle a (λ e. raise (explained e)) (after a w m)).0
              (handle a (λ e. raise (explained e)) (after a w m)).1
      go (ok done) w m p = q m w done p
      go (err e) w m p = r m w e p

module _ {W : Type 0} (h : Host W) (P : Machine W → Type 0) (Q : Completed → Machine W → Type 0)
    (R : Machine W → Type 0) (c : Command) where
  pub Triple-run :
      ((m : Machine W) (w : W) (done : Completed)
        → P m
        → succeeded done ≡ true
        → Q done (after h P Q R c (ok done) w m))
      → ((m : Machine W) (w : W) (done : Completed)
          → P m
          → succeeded done ≡ false
          → R (after h P Q R c (ok done) w m))
      → ((m : Machine W) (w : W) (e : Exception) → P m → R (after h P Q R c (err e) w m))
      → Triple P Q R (run h c)
  unfolding run
  Triple-run q f r =
      Triple-bind _ _
        (Triple-run_unchecked h P
          (λ done m'. (succeeded done ≡ true → Q done m') × (succeeded done ≡ false → R m')) R c
          (λ m w done p. (q m w done p, f m w done p)) r)
        (λ done. record {
          at = λ s p. Ends-if Q R (succeeded done) done (cleaner_error "Ошибка команды") s p.0 p.1;
        })
