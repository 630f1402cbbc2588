-- ===== src/System/Keeps.antt =====
-- Invariants of a system: the calls on files change no trace.
use remnanode_xhttp_cleaner.Base.{Option, none, some, List, ◌∷◌, Outcome, Exception}
use remnanode_xhttp_cleaner.Base.Int.{ℤ}
use remnanode_xhttp_cleaner.Base.Text.{Text}
use remnanode_xhttp_cleaner.Base.Exec.Keeps.{Keeps, keeps_rules}
use remnanode_xhttp_cleaner.System.{
  Platform, System, Completed, Content, FileStep, call, remove_tree, set_file, attempt, write_file,
  read_file, unlink_file, replace_file, receive, fail_with, written, discard, fill_and_replace,
  atomic_put, put_fetched, moved, found, write,
}

module _ {C W : Type 0} (h : Platform C W) where
  module _ {P : System C W → Type 0} where
    pub Keeps-attempt : (step : FileStep) (path : Text) → Keeps P (attempt h step path)
    unfolding attempt
    Keeps-attempt step path = record { at = λ m p. go (h.fault step path m.world) m p }
      where
        go : (r : Option ℤ) (m : System C W) → P m → P (fail_with h r m).1
        go none m p = p
        go (some errno) m p = p

    Keeps-found : (r : Option Content) → Keeps P (found h r)
    Keeps-found none = search (keeps_rules)
    Keeps-found (some content) = search (keeps_rules)

    pub Keeps-read_file : (path : Text) → Keeps P (read_file h path)
    unfolding read_file
    Keeps-read_file path = search (Keeps-attempt, Keeps-found, keeps_rules)

  -- An invariant of the trace.
  module _ (T : List (C × Outcome Completed) → Type 0) where
    abbrev pub Traced : System C W → Type 0
    Traced m = T m.trace

    pub Keeps-call :
        (c : C)
        → ((r : Outcome Completed) (t : List (C × Outcome Completed)) → T t → T ((c, r) ∷ t))
        → Keeps Traced (call h c)
    unfolding call
    Keeps-call c k = record { at = λ m p. k (h.run c m.world).0 m.trace p }

    pub Keeps-set_file :
        (path : Text) (content : Option Content) → Keeps Traced (set_file h path content)
    Keeps-set_file path content = record { at = λ m p. p }

    pub Keeps-write_file :
        (path : Text) (content : Content) → Keeps Traced (write_file h path content)
    unfolding write_file
    Keeps-write_file path content = record { at = λ m p. go (h.fault write path m.world) m p }
      where
        go : (r : Option ℤ) (m : System C W) → Traced m → Traced (written h r path content m).1
        go none m p = p
        go (some errno) m p = p

    pub Keeps-receive : (c : C) (file : Text) → Keeps Traced (receive h c file)
    Keeps-receive c file = record { at = λ m p. go (h.fetched c m.world) m p }
      where
        go : (r : Option Content) (m : System C W) → Traced m → Traced (put_fetched h file r m).1
        go none m p = p
        go (some content) m p = p

    Keeps-moved :
        (r : Option Content) (source target : Text) → Keeps Traced (moved h r source target)
    Keeps-moved none source target = search (keeps_rules)
    Keeps-moved (some content) source target = search (Keeps-set_file, keeps_rules)

    pub Keeps-remove_tree : (root : Text) → Keeps Traced (remove_tree h root)
    unfolding remove_tree
    Keeps-remove_tree root = record { at = λ m p. p }

    pub Keeps-unlink_file : (path : Text) → Keeps Traced (unlink_file h path)
    unfolding unlink_file
    Keeps-unlink_file path = search (Keeps-attempt, Keeps-set_file, keeps_rules)

    pub Keeps-replace_file : (source target : Text) → Keeps Traced (replace_file h source target)
    unfolding replace_file
    Keeps-replace_file source target = search (Keeps-attempt, Keeps-moved, keeps_rules)

    Keeps-fill_and_replace :
        (name path : Text) (content : Content) → Keeps Traced (fill_and_replace h name path content)
    unfolding fill_and_replace
    Keeps-fill_and_replace name path content =
        search (Keeps-write_file, Keeps-attempt, Keeps-replace_file, keeps_rules) depth 20

    Keeps-discard : (name : Text) (e : Exception) → Keeps Traced (discard h name e)
    unfolding discard
    Keeps-discard name e = search (Keeps-unlink_file, keeps_rules) depth 20

    pub Keeps-atomic_put :
        (path : Text) (content : Content) → Keeps Traced (atomic_put h path content)
    unfolding atomic_put
    Keeps-atomic_put path content =
        search (Keeps-attempt, Keeps-set_file, Keeps-fill_and_replace, Keeps-discard, keeps_rules)
          depth 20
