-- ===== src/Config/Untouched.antt =====
-- WriteFileAtomic replaces the file in one step, or leaves it as it was.
use simple_api.Base.{
  ℕ, ◌≡◌, refl, sym, ap, ◌∙◌, subst, ◌⊎◌, inl, inr, Bool, true, false, not, ◌||◌, Option, none,
  some, [], ◌∷◌, arith, if◌then◌else◌, ◌==◌, ==-refl, nat_eq, bool_eq, pair_eq, take, All, Text,
  text_eq,
}
use simple_api.Base.Dict.{lookup, insert, delete, lookup-insert, lookup-delete}
use simple_api.Config.Atomic.{
  Files, System, rename, Trace, give_up, after_write, write_temp, with_temp, write_file_atomic,
  final,
}

==_sym : (a b : Text) → (a == b) ≡ (b == a)
==_sym a b = ground (arith, text_eq.same_iff a b, text_eq.same_iff b a)

abbrev pub is_there : Option Text → Bool
is_there none = false
is_there (some t) = true

-- The old text of the file, or the new one in full.
abbrev pub OldOrNew : (path bytes : Text) (before s : Files) → Type 0
OldOrNew path bytes before s = (lookup path s ≡ lookup path before) ⊎ (lookup path s ≡ some bytes)

module _ (sys : System) (path bytes tmp k : Text) (before : Files) where
  -- What holds of the steps from a state on: of another file `k`, of the file, and of the temp file.
  pub record Replaces (start : Files) (out : Trace) : Type 0 where
    pub elsewhere : All (λ s. lookup k s ≡ lookup k before) out.0
    pub on_the_way : All (OldOrNew path bytes before) out.0
    pub at_end :
        lookup path (final out.0 start) ≡ (if out.1 then some bytes else lookup path before)
    pub temp_at_end : is_there (lookup tmp (final out.0 start)) ≡ not (out.1 || sys.removes)

  -- A state in which only the temp file is new.
  record Prepared (s : Files) : Type 0 where
    at_k : lookup k s ≡ lookup k before
    at_path : lookup path s ≡ lookup path before
    at_temp : is_there (lookup tmp s) ≡ true

  module _ (not_path : (tmp == path) ≡ false) (not_k : (tmp == k) ≡ false)
      (not_both : (path == k) ≡ false) where
    insert-Prepared :
        (v : Text) (s : Files)
        → lookup k s ≡ lookup k before
        → lookup path s ≡ lookup path before
        → Prepared (insert tmp v s)
    insert-Prepared v s e f = record {
      at_k = lookup-insert tmp k v s ∙ rw not_k e;
      at_path = lookup-insert tmp path v s ∙ rw not_path f;
      at_temp = ap is_there (lookup-insert tmp tmp v s) ∙ rw (==-refl tmp) refl;
    }

    -- What the removal of the temp file leaves.
    delete-elsewhere :
        (s : Files) (name : Text)
        → (tmp == name) ≡ false
        → lookup name (delete tmp s) ≡ lookup name s
    delete-elsewhere s name e = lookup-delete tmp name s ∙ rw e refl

    if_removed-elsewhere :
        (removes : Bool) (s : Files) (name : Text)
        → (tmp == name) ≡ false
        → lookup name (if removes then delete tmp s else s) ≡ lookup name s
    if_removed-elsewhere true s name e = delete-elsewhere s name e
    if_removed-elsewhere false s name e = refl

    if_removed-temp :
        (removes : Bool) (s : Files)
        → is_there (lookup tmp s) ≡ true
        → is_there (lookup tmp (if removes then delete tmp s else s)) ≡ not removes
    if_removed-temp true s e = ap is_there (lookup-delete tmp tmp s) ∙ rw (==-refl tmp) refl
    if_removed-temp false s e = e

    give_up-Replaces :
        (start s : Files) → Prepared s → Replaces start (give_up sys path bytes tmp s)
    unfolding delete
    give_up-Replaces start s h =
        let path_lem = if_removed-elsewhere sys.removes s path not_path ∙ h.at_path in
        record {
          elsewhere = (h.at_k, (if_removed-elsewhere sys.removes s k not_k ∙ h.at_k, tt));
          on_the_way = (inl h.at_path, (inl path_lem, tt));
          at_end = path_lem;
          temp_at_end = if_removed-temp sys.removes s h.at_temp;
        }

    renamed :
        (v : Text) (s : Files)
        → lookup tmp s ≡ some v
        → rename tmp path s ≡ insert path v (delete tmp s)
    unfolding rename
    renamed v s e = rw e refl

    rename-Replaces :
        (start s : Files)
        → Prepared s
        → lookup tmp s ≡ some bytes
        → Replaces start (s ∷ rename tmp path s ∷ [], true)
    rename-Replaces start s h e =
        let moved = λ (name : Text).
          ap (λ t. lookup name t) (renamed bytes s e)
          ∙ lookup-insert path name bytes (delete tmp s) in
        let path_not = ==_sym path tmp ∙ not_path in
        let gone : lookup tmp (rename tmp path s) ≡ none =
          moved tmp ∙ rw path_not (lookup-delete tmp tmp s ∙ rw (==-refl tmp) refl) in
        let path_lem = moved path ∙ rw (==-refl path) refl in
        record {
          elsewhere = (h.at_k, (moved k ∙ rw not_both (delete-elsewhere s k not_k ∙ h.at_k), tt));
          on_the_way = (inl h.at_path, (inr path_lem, tt));
          at_end = path_lem;
          temp_at_end = ap is_there gone;
        }

    if-Replaces :
        (b : Bool) (start : Files) (x y : Trace)
        → Replaces start x
        → Replaces start y
        → Replaces start (if b then x else y)
    if-Replaces true start x y p q = p
    if-Replaces false start x y p q = q

    after_write-Replaces :
        (start s : Files)
        → Prepared s
        → lookup tmp s ≡ some bytes
        → Replaces start (after_write sys path bytes tmp s)
    unfolding delete rename
    after_write-Replaces start s h e =
        let fails = give_up-Replaces start s h in
        if-Replaces (not sys.syncs) start _ _ fails (
          if-Replaces (not sys.closes) start _ _ fails (
            if-Replaces (not sys.chmods) start _ _ fails
              (if-Replaces (not sys.renames) start _ _ fails (rename-Replaces start s h e))))

    write_temp-Replaces :
        (failed : Option ℕ) (s : Files)
        → Prepared s
        → Replaces s (write_temp sys path bytes failed tmp s)
    unfolding insert delete rename
    write_temp-Replaces none s h =
        after_write-Replaces s (insert tmp bytes s) (insert-Prepared bytes s h.at_k h.at_path)
          (lookup-insert tmp tmp bytes s ∙ rw (==-refl tmp) refl)
    write_temp-Replaces (some count) s h =
        give_up-Replaces s (insert tmp (take count bytes) s)
          (insert-Prepared (take count bytes) s h.at_k h.at_path)

    with_temp-Replaces : Replaces before (with_temp sys path bytes (some tmp) before)
    unfolding insert delete rename
    with_temp-Replaces =
        let s = insert tmp [] before in
        let h = insert-Prepared [] before refl refl in
        let rest = write_temp-Replaces sys.failed_write s h in
        record {
          elsewhere = (h.at_k, rest.elsewhere);
          on_the_way = (inl h.at_path, rest.on_the_way);
          at_end = rest.at_end;
          temp_at_end = rest.temp_at_end;
        }

    -- With a new temp file, and whichever of the calls fails (a write after any number of bytes): at every
    -- step of WriteFileAtomic the file holds its old text or the new one in full, and every other file
    -- but the temp file is as it was. In the end the file holds the new text if nil is returned, and else
    -- its old one; and the temp file is gone, unless an error is returned and its removal fails too.
    pub write_file_atomic-Replaces :
        sys.temp ≡ some tmp → Replaces before (write_file_atomic sys path bytes before)
    unfolding write_file_atomic
    write_file_atomic-Replaces e =
        subst (λ t. Replaces before (with_temp sys path bytes t before)) (sym e) with_temp-Replaces
