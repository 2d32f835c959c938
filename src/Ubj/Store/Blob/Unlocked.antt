-- ===== src/Ubj/Store/Blob/Unlocked.antt =====
-- What `Store::open` of src/ubj/store/store.cpp takes from a root that `Store::init` made.
use mathlib.Core.Logic.{◌≢◌}
use zway_lib.Base.{
  ℕ, ◌≡◌, ◌<◌, refl, sym, ◌∙◌, ap, ap₂, Bool, true, false, ◌||◌, none, some, List, if◌then◌else◌,
  ◌==◌, length, take, take-all, overwrite_all, arith,
}
use zway_lib.Buffer.{of_bytes}
use zway_lib.Ubj.Key.{is_eq, cmp, cmp_refl}
use zway_lib.Ubj.Value.{Runtime, of_object, of_buffer, buffer_size}
use zway_lib.Ubj.Value.Convert.{two32}
use zway_lib.Ubj.Object.{find, has_field, at_key}
use zway_lib.Ubj.Format.{Library}
use zway_lib.Ubj.Format.RoundTrip.{IsStorable, tree}
use zway_lib.Ubj.Format.RoundTrip.Whole.{Keeps}
use zway_lib.Crypto.Aes.{Nettle, IsCounterMode, encrypt}
use zway_lib.Crypto.Aes.Chunks.{encrypt-whole}
use zway_lib.Ubj.Store.Blob.{Database, IsKept}
use zway_lib.Ubj.Store.Blob.Calls.{first_row}
use zway_lib.Ubj.Store.Blob.Kept.{IsDrawn}
use zway_lib.Ubj.Store.Blob.Objects.{get_object, written_bytes, get_object-create_object}
use zway_lib.Ubj.Store.Blob.Unlock.{
  main_table, root_node_id, root_object, checked, password_context, in_place, crypt_32, root_of,
  verified, key_of, store_root, key_in, load_key,
}

neither : (m n : ℕ) → m ≡ 32 → n ≡ 32 → ((m == 0) || (n == 0)) ≡ false
neither m n e h = ground arith

root_id : (n : ℕ) → n ≡ root_node_id → (n ≢ 0) × (n < two32)
root_id n e = (λ z. absurd (omega arith), omega arith)

module _ (N : Nettle) (malloc : ℕ → Bool) (pbkdf2 : List ℕ → List ℕ → List ℕ)
    (fresh : N.Context) where
  module _ (law : IsCounterMode N) (memory : (n : ℕ) → malloc n ≡ true)
      (derives : (p s : List ℕ) → length (pbkdf2 p s) ≡ 32) where
    crypt_32-lem :
        (c : N.Context) (l : List ℕ)
        → length l ≡ 32
        → crypt_32 N malloc pbkdf2 fresh c l ≡ N.ctr_crypt c l
    crypt_32-lem c l e =
        let all = take-all 32 l (omega arith) in
        let r =
          encrypt-whole N law Unit malloc true none c l tt (memory 1024) (λ st d total. refl) in
        ap (λ z. in_place N malloc pbkdf2 fresh c l (encrypt N Unit malloc true none c z tt)) all
        ∙ ap (in_place N malloc pbkdf2 fresh c l) r.1
        ∙ ap (λ z. (z, (N.ctr_crypt c l).1))
            (overwrite_all l (N.ctr_crypt c l).0 (law.length-crypt c l))

    key_of-root_object :
        (password key pwd salt : List ℕ)
        → length key ≡ 32
        → length pwd ≡ 32
        → key_of N malloc pbkdf2 fresh password (root_object key pwd salt)
          ≡ verified N malloc pbkdf2 fresh password key pwd salt
    unfolding key_of find has_field at_key cmp buffer_size of_buffer
    key_of-root_object password key pwd salt e h =
        ap (λ b. if b then none else verified N malloc pbkdf2 fresh password key pwd salt)
          (neither (length key) (length pwd) e h)

    -- What decrypts to the key, and behind it to the derived key, is accepted.
    opened_lem :
        (password key sealed_pwd salt sealed : List ℕ) (c c' : N.Context)
        → crypt_32 N malloc pbkdf2 fresh
            (password_context N malloc pbkdf2 fresh (pbkdf2 password salt))
            sealed
          ≡ (key, c)
        → crypt_32 N malloc pbkdf2 fresh c sealed_pwd ≡ (pbkdf2 password salt, c')
        → verified N malloc pbkdf2 fresh password sealed sealed_pwd salt ≡ some (of_bytes key)
    opened_lem password key sealed_pwd salt sealed c c' e h =
        let derived = pbkdf2 password salt in
        ap (λ z. checked derived z.0 (crypt_32 N malloc pbkdf2 fresh z.1 sealed_pwd).0) e
        ∙ ap (λ z. checked derived key z.0) h
        ∙ ap (λ o. if is_eq o then some (of_bytes key) else none) (cmp_refl (take 32 derived))

    -- While memory lasts, and for a key of 32 bytes: from the root that create stored under a password,
    -- unlock with that password takes just the key again.
    pub key_of-root_of :
        (password salt key : List ℕ)
        → length key ≡ 32
        → key_of N malloc pbkdf2 fresh password (root_of N malloc pbkdf2 fresh password salt key)
          ≡ some (of_bytes key)
    unfolding root_of
    key_of-root_of password salt key e =
        let pwd = pbkdf2 password salt in
        let c = password_context N malloc pbkdf2 fresh pwd in
        let k = N.ctr_crypt c key in
        let p = N.ctr_crypt k.1 pwd in
        let d = derives password salt in
        let sealed_key = law.length-crypt c key ∙ e in
        let sealed_pwd = law.length-crypt k.1 pwd ∙ d in
        ap₂
          (λ a b.
            key_of N malloc pbkdf2 fresh password
              (root_object a.0 (crypt_32 N malloc pbkdf2 fresh b.1 pwd).0 salt))
          (crypt_32-lem c key e) (crypt_32-lem c key e)
        ∙ ap (λ z. key_of N malloc pbkdf2 fresh password (root_object k.0 z.0 salt))
            (crypt_32-lem k.1 pwd d)
        ∙ key_of-root_object password k.0 p.0 salt sealed_key sealed_pwd
        ∙ opened_lem password key p.0 salt k.0 k.1 (N.ctr_crypt k.1 p.0).1
            (crypt_32-lem c k.0 sealed_key
              ∙ ap₂ (λ a b. (a, b)) (law.crypt-crypt c key)
                  (law.crypt-context c k.0 key (law.length-crypt c key)))
            (crypt_32-lem k.1 p.0 sealed_pwd
              ∙ ap (λ a. (a, (N.ctr_crypt k.1 p.0).1)) (law.crypt-crypt k.1 pwd))

    filled_32 :
        (c : N.Context) (l : List ℕ)
        → length l ≡ 32
        → 0 < length (crypt_32 N malloc pbkdf2 fresh c l).0
    filled_32 c l e =
        let n : length (crypt_32 N malloc pbkdf2 fresh c l).0 ≡ 32 =
          ap (λ z. length z.0) (crypt_32-lem c l e) ∙ law.length-crypt c l ∙ e in
        omega arith

    pub root_of-IsStorable :
        (password salt key : List ℕ)
        → length key ≡ 32
        → 0 < length salt
        → IsStorable (of_object (root_of N malloc pbkdf2 fresh password salt key))
    unfolding root_of of_buffer cmp
    root_of-IsStorable password salt key e h =
        let pwd = pbkdf2 password salt in
        let c = password_context N malloc pbkdf2 fresh pwd in
        (
          refl,
          ((refl, (refl, tt)), ((refl, tt), (tt, tt))),
          (
            (omega arith, (omega arith, (omega arith, tt))),
            ((crypt_32 N malloc pbkdf2 fresh c key).0, filled_32 c key e, refl),
            (
              (omega arith, (omega arith, (omega arith, tt))),
              (
                (crypt_32 N malloc pbkdf2 fresh (crypt_32 N malloc pbkdf2 fresh c key).1 pwd).0,
                filled_32 (crypt_32 N malloc pbkdf2 fresh c key).1 pwd (derives password salt),
                refl,
              ),
              ((omega arith, (omega arith, (omega arith, (omega arith, tt)))), (salt, h, refl), tt),
            ),
          ),
        )

module _ (rt : Runtime) (lib : Library) (N : Nettle) (D : Database)
    (pbkdf2 : List ℕ → List ℕ → List ℕ) (fresh : N.Context) where
  -- While memory lasts, for a key of 32 bytes and a salt that is not empty, and from a library that gives
  -- back the tree it was told to write: if the root gets its id, then from what create stored under a
  -- password, unlock with that password takes just the store's key.
  pub load_key-store_root :
      (law : IsCounterMode N) (kept : IsKept D) (memory : (n : ℕ) → rt.malloc n ≡ true)
      (drawn : IsDrawn N law D kept rt.malloc memory fresh none)
      (derives : (p s : List ℕ) → length (pbkdf2 p s) ≡ 32) (s : D.State)
      (password salt key : List ℕ)
      → length key ≡ 32
      → 0 < length salt
      → Keeps lib (tree rt (of_object (root_of N rt.malloc pbkdf2 fresh password salt key)))
      → (D.insert s main_table (
          first_row
            (some (
              written_bytes rt lib N D fresh none
                (root_of N rt.malloc pbkdf2 fresh password salt key)))
            false)).0
        ≡ root_node_id
      → load_key rt lib N D pbkdf2 fresh
          (store_root rt lib N D pbkdf2 fresh s password salt key).1
          password
        ≡ some (of_bytes key)
  unfolding store_root load_key
  load_key-store_root law kept memory drawn derives s password salt key e h keeps at_root =
      let root = root_of N rt.malloc pbkdf2 fresh password salt key in
      let t = (store_root rt lib N D pbkdf2 fresh s password salt key).1 in
      let one =
        root_of-IsStorable N rt.malloc pbkdf2 fresh law memory derives password salt key e h in
      let r =
        get_object-create_object rt lib N D fresh none law kept memory drawn s main_table root false
          one keeps (root_id _ at_root).0 (root_id _ at_root).1 in
      ap
        (λ id.
          key_in rt lib N D pbkdf2 fresh password
            (get_object rt lib N D fresh none t main_table id))
        (sym at_root)
      ∙ ap (key_in rt lib N D pbkdf2 fresh password) r.1
      ∙ key_of-root_of N rt.malloc pbkdf2 fresh law memory derives password salt key e
