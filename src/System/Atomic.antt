-- ===== src/System/Atomic.antt =====
-- `atomic_json` of `xray-core-manager.py` and `atomic_write` of `remnanode-xhttp-clean.py`, step by step.
use remnanode_xhttp_cleaner.Base.{◌≡◌, refl, false, Option, none, some, [], Exception}
use remnanode_xhttp_cleaner.Base.Int.{ℤ}
use remnanode_xhttp_cleaner.Base.Text.{Text, text_eq, text_eq_refl}
use remnanode_xhttp_cleaner.Base.Exec.{catch, ◌>>◌}
use remnanode_xhttp_cleaner.Base.Exec.Keeps.{Keeps, keeps_rules}
use remnanode_xhttp_cleaner.Base.Exec.Triple.{
  Ends, Triple, Triple-bind, Triple-Keeps, Triple-gets, Triple-catch, Triple-raise,
}
use remnanode_xhttp_cleaner.System.{
  Platform, System, Content, bytes, create, write, chmod, replace, attempt, write_file, written,
  set_file, unlink_file, replace_file, moved, put_file,
}
use remnanode_xhttp_cleaner.System.Keeps.{Keeps-attempt}
use remnanode_xhttp_cleaner.System.{discard, fill_and_replace, atomic_put}

put_file-same :
    (path : Text) (content : Option Content) (files : Text → Option Content)
    → put_file path content files path ≡ content
unfolding put_file
put_file-same path content files = rw (text_eq_refl path)

pub put_file-other :
    (path q : Text) (content : Option Content) (files : Text → Option Content)
    → text_eq path q ≡ false
    → put_file path content files q ≡ files q
unfolding put_file
put_file-other path q content files e = rw e

module _ {C W : Type 0} (h : Platform C W) (start : System C W) (name path : Text)
    (content : Content) where
  -- Nothing but the temporary file differs from the start.
  abbrev pub Untouched : System C W → Type 0
  Untouched m = (q : Text) → text_eq name q ≡ false → m.files q ≡ start.files q

  abbrev Filled : System C W → Type 0
  Filled m = Untouched m × (m.files name ≡ some content)

  -- The new content is there, the temporary file is not, and the other files are as before.
  abbrev pub Replaced : System C W → Type 0
  Replaced m =
      (m.files path ≡ some content)
      × (m.files name ≡ none)
      × ((q : Text) → text_eq name q ≡ false → text_eq path q ≡ false → m.files q ≡ start.files q)

  module _ (fresh : text_eq name path ≡ false) where
    Untouched-put :
        (m : System C W) (given : Option Content)
        → Untouched m
        → (q : Text) → text_eq name q ≡ false
        → put_file name given m.files q ≡ start.files q
    Untouched-put m given u q e = rw (put_file-other name q given m.files e, u q e)

    Keeps-set_name : (content : Option Content) → Keeps Untouched (set_file h name content)
    Keeps-set_name content = record { at = λ m u. Untouched-put m content u }

    write_file-Filled : Triple Untouched (λ _. Filled) Untouched (write_file h name content)
    unfolding write_file
    write_file-Filled = record { at = λ m u. go (h.fault write name m.world) m u }
      where
        go :
            (r : Option ℤ) (m : System C W)
            → Untouched m
            → Ends
                (λ (_ : Unit {0}). Filled)
                Untouched
                (written h r name content m).0
                (written h r name content m).1
        go none m u = (Untouched-put m (some content) u, put_file-same name _ m.files)
        go (some errno) m u = Untouched-put m (h.left name m.world) u

    moved-Replaced :
        (o : Option Content)
        → Triple
            (λ m. Filled m × (o ≡ m.files name))
            (λ _. Replaced)
            Untouched
            (moved h o name path)
    moved-Replaced none = Triple-raise _ (λ m p. p.0.0)
    moved-Replaced (some content) = record {
      at = λ m p. (
        rw (
          put_file-other name path none (put_file path (some content) m.files) fresh,
          put_file-same path (some content) m.files,
          p.1,
          p.0.1,
        ),
        put_file-same name none (put_file path (some content) m.files),
        λ q e f. rw (
          put_file-other name q none (put_file path (some content) m.files) e,
          put_file-other path q (some content) m.files f,
          p.0.0 q e,
        ),
      );
    }

    replace_file-Replaced : Triple Filled (λ _. Replaced) Untouched (replace_file h name path)
    unfolding replace_file
    replace_file-Replaced =
        Triple-bind _ _
          (Triple-gets {Q = λ (o : Option Content) (m : System C W). Filled m × (o ≡ m.files name)}
            (λ m. m.files name) (λ m p. (p, refl)))
          (λ o.
            Triple-bind _ _ (Triple-Keeps _ (λ m p. p.0.0) (Keeps-attempt h replace name))
              (λ _. moved-Replaced o))

    fill_and_replace-Replaced :
        Triple Untouched (λ _. Replaced) Untouched (fill_and_replace h name path content)
    unfolding fill_and_replace
    fill_and_replace-Replaced = Triple-bind _ _ write_file-Filled (λ _.
        Triple-bind _ _ (Triple-Keeps _ (λ m p. p.0) (Keeps-attempt h chmod name))
          (λ _. replace_file-Replaced))

    Keeps-unlink_name : Keeps Untouched (unlink_file h name)
    unfolding unlink_file
    Keeps-unlink_name = search (Keeps-attempt, Keeps-set_name, keeps_rules) depth 20

    discard-Untouched :
        (e : Exception) → Triple Untouched (λ _. Replaced) Untouched (discard h name e)
    unfolding discard
    discard-Untouched e =
        Triple-bind _ _ (Triple-Keeps _ (λ m u. u) Keeps-unlink_name)
          (λ _. Triple-raise e (λ m u. u))

    atomic_body :
        Triple Untouched
          (λ _. Replaced)
          Untouched
          (do
            attempt h create name
            set_file h name (some (bytes []))
            catch (fill_and_replace h name path content) (discard h name))
    atomic_body = Triple-bind _ _ (Triple-Keeps _ (λ m u. u) (Keeps-attempt h create name)) (λ _.
        Triple-bind _ _ (Triple-Keeps _ (λ m u. u) (Keeps-set_name (some (bytes []))))
          (λ _. Triple-catch _ _ fill_and_replace-Replaced discard-Untouched))

module _ {C W : Type 0} (h : Platform C W) where
  -- What `atomic_put` leaves, if the temporary name is not the path itself. If it returns, the file
  -- holds the new value and the temporary file is gone; if it raises, the file is as it was. In both
  -- cases no other file than these two has changed.
  pub atomic_put-IsAtomic :
      (path : Text) (content : Content) (m : System C W)
      → text_eq (h.temporary path m.world) path ≡ false
      → Ends
          (λ (_ : Unit {0}) (after : System C W).
            Replaced h m (h.temporary path m.world) path content after)
          (λ after. Untouched h m (h.temporary path m.world) path content after)
          (atomic_put h path content m).0
          (atomic_put h path content m).1
  unfolding atomic_put
  atomic_put-IsAtomic path content m fresh =
      (atomic_body h m (h.temporary path m.world) path content fresh).at m (λ q e. refl)
