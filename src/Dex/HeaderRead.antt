-- ===== src/Dex/HeaderRead.antt =====
-- The header of a DEX file is read, or `DexFormatError` is raised; the tables that it accepts lie in
-- the file.
use android_appsec_assessor.Prelude.{
  ℕ, ◌+◌, ◌*◌, ◌%◌, ◌≤◌, ◌≡◌, String, Bool, true, false, not, ◌&&◌, ◌||◌, List, length, ltb, leb,
  ◌==◌, arith,
}
use android_appsec_assessor.Errors.{dex_format_error, require}
use android_appsec_assessor.Dex.{validate_table}
use android_appsec_assessor.Dex.CodeItem.{uint32}
use android_appsec_assessor.Dex.Policy.{StaticApkPolicy}
use android_appsec_assessor.Dex.Inventory.{
  has_magic, Table, read_table, Tables, check_header, read_tables,
}
use android_appsec_assessor.Dex.Raises.{Owes, Owes-bind, Owes-if, Owes-require, Owes-ok, Owes-err}
use android_appsec_assessor.Dex.Totality.{uint32-Owes}
use android_appsec_assessor.Dex.Reads.{Some, Owes-then}

-- What an accepted table keeps.
pub record IsTable (bytes : List ℕ) (size offset item_size maximum : ℕ) : Type 0 where
  few : size ≤ maximum
  inside : offset + size * item_size ≤ length bytes

pub validate_table-Owes :
    (bytes : List ℕ) (size offset item_size maximum : ℕ)
    → Owes
        (λ (u : Unit {0}). IsTable bytes size offset item_size maximum)
        (validate_table bytes size offset item_size maximum)
unfolding validate_table
validate_table-Owes bytes size offset item_size maximum =
    let done = λ (u : Unit {0}). IsTable bytes size offset item_size maximum in
    Owes-if done (ltb maximum size) _ _ (λ e. Owes-err done _)
      (λ e.
        Owes-if done (size == 0) _ _
          (λ f.
            Owes-if done (not (offset == 0)) _ _ (λ g. Owes-err done _)
              (λ g. Owes-ok done tt (record {
                few = ground (arith, e);
                inside =
                    let none_at_all : size ≡ 0 = ground (arith, f) in
                    let at_zero : offset ≡ 0 = ground (arith, g) in
                    rw (none_at_all, at_zero) (omega arith);
              })))
          (λ f.
            Owes-if done
              (ltb offset 112
                || not (offset % 4 == 0)
                || ltb (length bytes) (offset + size * item_size))
              _ _ (λ g. Owes-err done _)
              (λ g.
                Owes-ok done tt (record { few = ground (arith, e); inside = ground (arith, g) }))))

read_table-Owes : (file : List ℕ) (position : ℕ) → Owes (Some Table) (read_table file position)
unfolding read_table
read_table-Owes file position =
    Owes-then (Some Table) (uint32 file position) _ (uint32-Owes file position) (λ size.
      Owes-then (Some Table) (uint32 file (position + 4)) _ (uint32-Owes file _)
        (λ offset. Owes-ok (Some Table) _ tt))

last_test-Owes :
    (test : Bool) (message : String)
    → Owes (Some (Unit {0})) (require test dex_format_error message)
last_test-Owes true message = Owes-ok (Some (Unit {0})) tt tt
last_test-Owes false message = Owes-err (Some (Unit {0})) message

pub check_header-Owes :
    (file : List ℕ) (limits : StaticApkPolicy) → Owes (Some (Unit {0})) (check_header file limits)
unfolding check_header
check_header-Owes file limits =
    let done = Some (Unit {0}) in
    Owes-require done (leb 112 (length file) && leb (length file) limits.max_dex_bytes) _ _ (λ a.
      Owes-require done (has_magic file) _ _ (λ b.
        Owes-then done (uint32 file 0x20) _ (uint32-Owes file _) (λ file_size.
          Owes-then done (uint32 file 0x24) _ (uint32-Owes file _) (λ header_size.
            Owes-then done (uint32 file 0x28) _ (uint32-Owes file _) (λ endian_tag.
              Owes-require done (file_size == length file && header_size == 112) _ _ (λ c.
                Owes-require done (not (endian_tag == 0x78563412)) _ _
                  (λ d. last_test-Owes (endian_tag == 0x12345678) _)))))))

-- The tables of a header, as far as the rest relies on them.
pub record IsTables (file : List ℕ) (limits : StaticApkPolicy) (t : Tables) : Type 0 where
  pub few_strings : t.string_ids.0 ≤ limits.max_dex_strings
  pub few_methods : t.method_ids.0 ≤ limits.max_method_references
  pub methods_inside : t.method_ids.1 + t.method_ids.0 * 8 ≤ length file

pub read_tables-Owes :
    (file : List ℕ) (limits : StaticApkPolicy)
    → Owes (IsTables file limits) (read_tables file limits)
unfolding read_tables
read_tables-Owes file limits =
    let done = IsTables file limits in
    let valid = λ (t : Table) (item_size maximum : ℕ).
      λ (u : Unit {0}). IsTable file t.0 t.1 item_size maximum in
    Owes-then done (read_table file 0x38) _ (read_table-Owes file _) (λ s.
      Owes-then done (read_table file 0x40) _ (read_table-Owes file _) (λ t.
        Owes-then done (read_table file 0x48) _ (read_table-Owes file _) (λ p.
          Owes-then done (read_table file 0x58) _ (read_table-Owes file _) (λ m.
            Owes-bind (valid s 4 limits.max_dex_strings) done _ _ (validate_table-Owes file _ _ _ _)
              (λ u vs.
                Owes-bind (valid t 4 limits.max_dex_strings) done _ _
                  (validate_table-Owes file _ _ _ _)
                  (λ u vt.
                    Owes-bind (valid p 12 limits.max_method_references) done _ _
                      (validate_table-Owes file _ _ _ _)
                      (λ u vp.
                        Owes-bind (valid m 8 limits.max_method_references) done _ _
                          (validate_table-Owes file _ _ _ _)
                          (λ u vm. Owes-ok done _ (record {
                            few_strings = vs.few;
                            few_methods = vm.few;
                            methods_inside = vm.inside;
                          })))))))))
