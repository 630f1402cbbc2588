-- ===== src/Manager/Files/Atomic.antt =====
-- `atomic_json` of `xray-core-manager.py`.
use remnanode_xhttp_cleaner.Base.{◌≡◌, false}
use remnanode_xhttp_cleaner.Base.Text.{Text, text_eq}
use remnanode_xhttp_cleaner.Base.Exec.Triple.{Ends}
use remnanode_xhttp_cleaner.Json.{Json}
use remnanode_xhttp_cleaner.System.Atomic.{Untouched, Replaced, atomic_put-IsAtomic}
use remnanode_xhttp_cleaner.Manager.Machine.{Host, Machine, json}
use remnanode_xhttp_cleaner.Manager.Files.{atomic_json}

module _ {W : Type 0} (h : Host W) where
  -- What `atomic_json` leaves, if the temporary name is not the path itself. If it returns, the file
  -- holds the new value and the temporary file is gone; if it raises, the file is as it was. In both
  -- cases no other file than these two has changed.
  pub atomic_json-IsAtomic :
      (path : Text) (payload : Json) (m : Machine W)
      → text_eq (h.temporary path m.world) path ≡ false
      → Ends
          (λ (_ : Unit {0}) (after : Machine W).
            Replaced h m (h.temporary path m.world) path (json payload) after)
          (λ after. Untouched h m (h.temporary path m.world) path (json payload) after)
          (atomic_json h path payload m).0
          (atomic_json h path payload m).1
  unfolding atomic_json
  atomic_json-IsAtomic path payload m fresh = atomic_put-IsAtomic h path (json payload) m fresh
