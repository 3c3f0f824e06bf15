-- ===== src/Autotune/Reload/Entry.antt =====
-- The parts of `validate_entry` on an entry that was written and read back.
use rns.Prelude.{◌≡◌, refl, ap, ◌∙◌, false, String, str_eq, arith}
use rns.Prelude.Int.{ℤ, pos}
use rns.Json.{Value, Fields, null, bool, int, str, obj, get, get_or}
use rns.Dict.{Dict}
use rns.Autotune.Result.{Result, ok, fail, Library, ◌>>=◌, for_each}
use rns.Autotune.Split.{key_fields}
use rns.Autotune.Fields.{require_string, require_int}
use rns.Autotune.Entry.{
  Header, read_header, check_review, read_shape, check_medians, check_export, check_selected_export,
  read_finite_modulus, check_entry, set_field, require_object, require_text, modulus_of,
}
use rns.Autotune.World.{canonical, canonical_fields}
use rns.Autotune.Accepted.{check_entry-Accepted, Accepted-check_entry}
use rns.Autotune.Reload.Canonical.{
  get_or-canonical, get-canonical, has_key-canonical, nonempty-IsStable, is_true-IsStable,
  py_eq_str-IsStable, require_string-canonical, require_int-canonical, require_number-canonical,
  get_or-set_field, set_field_self, has_key-set_field,
}

-- An entry `d` as it is read back when its `finite_modulus` has been set to `v`.
abbrev reload : Value → Fields → Fields
reload v d = canonical_fields (set_field "finite_modulus" v d)

abbrev Other : String → Type 0
Other k = str_eq "finite_modulus" k ≡ false

through-canonical :
    {A : Type 0} (m : Result Fields) (f g : Fields → Result A)
    → ((e : Fields) → f (canonical_fields e) ≡ g e)
    → ((m >>= λ e. ok (canonical_fields e)) >>= f) ≡ (m >>= g)
through-canonical (ok e) f g h = h e
through-canonical (fail e) f g h = refl

module _ (v : Value) (d : Fields) where
  get_or-reload :
      (k : String) (c : Value)
      → Other k
      → get_or k (canonical c) (reload v d) ≡ canonical (get_or k c d)
  get_or-reload k c other =
      get_or-canonical k c (set_field "finite_modulus" v d)
      ∙ ap canonical (ground (arith, get_or-set_field k "finite_modulus" c v d))

  string-reload : (k : String) → Other k → require_string (reload v d) k ≡ require_string d k
  unfolding require_string
  string-reload k other =
      require_string-canonical (set_field "finite_modulus" v d) k
      ∙ ground (arith, get_or-set_field k "finite_modulus" null v d)

  int-reload : (k : String) (n : ℤ) → Other k → require_int (reload v d) k n ≡ require_int d k n
  unfolding require_int
  int-reload k n other =
      require_int-canonical (set_field "finite_modulus" v d) k n
      ∙ ground (arith, get_or-set_field k "finite_modulus" null v d)

  text-reload :
      (k : String) (c : Value) (message : String)
      → Other k
      → require_text (get_or k (canonical c) (reload v d)) message
        ≡ require_text (get_or k c d) message
  text-reload k c message other =
      ground (arith, get_or-reload k c, nonempty-IsStable (get_or k c d))

  read_header-reload : read_header (reload v d) ≡ read_header d
  unfolding read_header
  read_header-reload = rw (
    string-reload "key" refl,
    string-reload "selected_backend" refl,
    string-reload "selected_kernel" refl,
    string-reload "target_id" refl,
    string-reload "hip_sdk_or_library_version" refl,
    string-reload "semantic_contract" refl,
    string-reload "layout" refl,
    string-reload "prefix_schedule_hash" refl,
    string-reload "epilogue" refl,
    string-reload "kernel_family" refl,
    string-reload "validation_status" refl,
  )

  check_review-reload :
      (lib : Library) (h : Header) → check_review lib (reload v d) h ≡ check_review lib d h
  unfolding check_review canonical
  check_review-reload lib h = rw (
    get_or-reload "performance_validated" null refl,
    is_true-IsStable (get "performance_validated" d),
    int-reload "schema_version" (pos 0) refl,
  )

  object-reload :
      (k message : String)
      → Other k
      → require_object (get k (reload v d)) message
        ≡ (require_object (get k d) message >>= λ e. ok (canonical_fields e))
  unfolding canonical
  object-reload k message other = rw (get_or-reload k null other) (go (get k d))
    where
      go :
          (w : Value)
          → require_object (canonical w) message
            ≡ (require_object w message >>= λ e. ok (canonical_fields e))
      go null = refl
      go (obj e) = refl
      go w = refl

  read_shape-reload : read_shape (reload v d) ≡ read_shape d
  unfolding read_shape
  read_shape-reload =
      rw
        (
          object-reload "shape" "shape must be an object" refl,
          int-reload "k_block_size" (pos 0) refl,
          int-reload "tile_m" (pos 1) refl,
          int-reload "tile_n" (pos 1) refl,
          int-reload "workspace_bytes" (pos 0) refl,
        )
        (through-canonical (require_object (get "shape" d) "shape must be an object") _ _ (λ e. rw (
          require_int-canonical e "m" (pos 1),
          require_int-canonical e "n" (pos 1),
          require_int-canonical e "k" (pos 1),
        )))

  check_medians-reload : check_medians (reload v d) ≡ check_medians d
  unfolding check_medians for_each
  check_medians-reload =
      rw (object-reload "measured_medians_us" "measured_medians_us must be an object" refl) (
        through-canonical
          (require_object (get "measured_medians_us" d) "measured_medians_us must be an object") _ _
          (λ e. rw (
            require_number-canonical e "pack",
            require_number-canonical e "rns_gemm",
            require_number-canonical e "crt_export",
            require_number-canonical e "end_to_end",
            require_number-canonical e "pack_a",
            require_number-canonical e "pack_b",
            has_key-canonical "pack_a" e,
            has_key-canonical "pack_b" e,
          )))

  check_selected_export-reload :
      (lib : Library) (fields : Dict String) (scope export reconstruction : String)
      → check_selected_export lib (reload v d) fields scope export reconstruction
        ≡ check_selected_export lib d fields scope export reconstruction
  unfolding check_selected_export canonical
  check_selected_export-reload lib fields scope export reconstruction =
      rw
        (
          text-reload "export_selector_key" null "missing_export_selector_key" refl,
          get_or-reload "export_selector_hash" null refl,
        )
        (simp (py_eq_str-IsStable))

  check_export-reload :
      (lib : Library) (fields : Dict String)
      → check_export lib (reload v d) fields ≡ check_export lib d fields
  unfolding check_export canonical
  check_export-reload lib fields =
      rw
        (
          text-reload "export_variant" (str "default") "export_variant must be a nonempty string"
              refl,
          text-reload "reconstruction_variant" (str "default_garner")
              "reconstruction_variant must be a nonempty string" refl,
          text-reload "cache_scope" (str "runtime_exact_autotune")
              "cache_scope must be a nonempty string" refl,
        )
        (simp (check_selected_export-reload))

modulus_read_again :
    (w : Value) (finite : Value × ℤ)
    → modulus_of w ≡ ok finite
    → modulus_of (canonical finite.0) ≡ ok finite
unfolding modulus_of canonical
modulus_read_again null finite h = ground arith
modulus_read_again (bool b) finite h = ground arith
modulus_read_again (int n) finite h = ground arith
modulus_read_again w finite h = absurd (cc h)

-- The value itself is an integer, which is written as it is.
value_of : Result (Value × ℤ) → Value
value_of (ok p) = p.0
value_of (fail e) = null

modulus-canonical :
    (w : Value) (finite : Value × ℤ) → modulus_of w ≡ ok finite → canonical finite.0 ≡ finite.0
unfolding modulus_of value_of canonical
modulus-canonical null finite h = rw (← ap value_of h)
modulus-canonical (bool b) finite h = rw (← ap value_of h)
modulus-canonical (int n) finite h = ground arith
modulus-canonical w finite h = absurd (cc h)

-- What `read_finite_modulus` returns is an integer, which it reads again.
finite_read_again :
    (d : Fields) (finite : Value × ℤ)
    → read_finite_modulus d ≡ ok finite
    → read_finite_modulus (reload finite.0 d) ≡ ok finite
unfolding read_finite_modulus canonical
finite_read_again d finite h =
    ap modulus_of (
      get_or-canonical "finite_modulus" (int (pos 0)) (set_field "finite_modulus" finite.0 d)
      ∙ ap canonical (get_or-set_field "finite_modulus" "finite_modulus" (int (pos 0)) finite.0 d))
    ∙ modulus_read_again (get_or "finite_modulus" (int (pos 0)) d) finite h

finite-reload :
    (d : Fields) (finite : Value × ℤ)
    → read_finite_modulus d ≡ ok finite
    → get "finite_modulus" (reload finite.0 d) ≡ finite.0
unfolding read_finite_modulus
finite-reload d finite h =
    get-canonical "finite_modulus" (set_field "finite_modulus" finite.0 d)
    ∙ ap canonical (get_or-set_field "finite_modulus" "finite_modulus" null finite.0 d)
    ∙ modulus-canonical (get_or "finite_modulus" (int (pos 0)) d) finite h

pub entry_read_again :
    (lib : Library) (d e : Fields)
    → check_entry lib d ≡ ok e
    → check_entry lib (canonical_fields e) ≡ ok (canonical_fields e)
entry_read_again lib d e h =
    let a = check_entry-Accepted lib d e h in
    let v = a.finite.0 in
    rw (← a.updated) (
      Accepted-check_entry lib (reload v d) (reload v d) (record {
        header = a.header;
        shape = a.shape;
        finite = a.finite;
        header_read = read_header-reload v d ∙ a.header_read;
        reviewed = check_review-reload v d lib a.header ∙ a.reviewed;
        shape_read = read_shape-reload v d ∙ a.shape_read;
        timed = check_medians-reload v d ∙ a.timed;
        keyed = a.keyed;
        exported = check_export-reload v d lib (key_fields a.header.key) ∙ a.exported;
        finite_read = finite_read_again d a.finite a.finite_read;
        finite_keyed = a.finite_keyed;
        supported = a.supported;
        updated =
            set_field_self "finite_modulus" v (reload v d)
              (has_key-canonical "finite_modulus" (set_field "finite_modulus" v d)
                ∙ has_key-set_field "finite_modulus" v d)
              (finite-reload d a.finite a.finite_read);
      }))
