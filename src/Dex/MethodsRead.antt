-- ===== src/Dex/MethodsRead.antt =====
-- The method table of a DEX file is read, or `DexFormatError` is raised.
use android_appsec_assessor.Prelude.{
  ℕ, zero, suc, ◌+◌, ◌*◌, ◌≤◌, ◌≡◌, ◌&&◌, Option, none, some, List, [], ◌∷◌, ◌++◌, length, ltb, leb,
  arith,
}
use android_appsec_assessor.Dex.Registers.{Text, DexMethodReference}
use android_appsec_assessor.Dex.CodeItem.{uint16_at}
use android_appsec_assessor.Dex.Texts.{is_reference_descriptor}
use android_appsec_assessor.Dex.Tables.{Texts}
use android_appsec_assessor.Dex.MethodTable.{
  Methods, method_of, read_method_reference, read_method_references,
}
use android_appsec_assessor.Dex.Raises.{Owes, Owes-map, Owes-require, Owes-ok}
use android_appsec_assessor.Dex.Totality.{uint16_at-Owes}
use android_appsec_assessor.Dex.Reads.{Some, Owes-then, Owes-item}
use android_appsec_assessor.Dex.TablesRead.{length_grown}

abbrev pub LongMethods : ℕ → Methods → Type 0
LongMethods n methods = length methods ≡ n

method_of-Owes :
    (class_descriptor method_name prototype : Option Text)
    → Owes (Some (Option DexMethodReference)) (method_of class_descriptor method_name prototype)
unfolding method_of
method_of-Owes (some class_descriptor) (some method_name) (some prototype) =
    let done = Some (Option DexMethodReference) in
    Owes-require done (is_reference_descriptor class_descriptor) _ _ (λ e.
      Owes-require done (ltb 0 (length method_name) && leb (length method_name) 200) _ _
        (λ f. Owes-ok done _ tt))
method_of-Owes none m p = Owes-ok (Some (Option DexMethodReference)) _ tt
method_of-Owes (some c) none p = Owes-ok (Some (Option DexMethodReference)) _ tt
method_of-Owes (some c) (some m) none = Owes-ok (Some (Option DexMethodReference)) _ tt

module _ (file : List ℕ) (string_count type_count proto_count : ℕ)
    (strings types prototypes : Texts) (read : length strings ≡ string_count)
    (typed : length types ≡ type_count) (known : length prototypes ≡ proto_count) where
  read_method_reference-Owes :
      (base : ℕ)
      → base + 8 ≤ length file
      → Owes (Some (Option DexMethodReference)) (
          read_method_reference file string_count type_count proto_count strings types prototypes
            base)
  unfolding read_method_reference
  read_method_reference-Owes base inside =
      let done = Some (Option DexMethodReference) in
      Owes-then done (uint16_at file base) _ (uint16_at-Owes file _ (omega (arith, inside))) (λ c.
        Owes-then done (uint16_at file (base + 2)) _ (uint16_at-Owes file _ (omega (arith, inside)))
          (λ p.
            Owes-then done (uint16_at file (base + 4)) _
              (uint16_at-Owes file _ (omega (arith, inside)))
              (λ low.
                Owes-then done (uint16_at file (base + 6)) _
                  (uint16_at-Owes file _ (omega (arith, inside)))
                  (λ high.
                    Owes-require done
                      (ltb c type_count
                        && ltb p proto_count
                        && ltb (low + high * 65536) string_count)
                      _ _
                      (λ e. Owes-item done types c _ (ground (arith, e, typed)) (λ class_descriptor.
                        Owes-item done strings (low + high * 65536) _ (ground (arith, e, read))
                          (λ method_name.
                            Owes-item done prototypes p _ (ground (arith, e, known)) (λ prototype.
                              method_of-Owes class_descriptor method_name prototype))))))))

  pub read_method_references-Owes :
      (method_offset count index n : ℕ) (methods : Methods)
      → method_offset + (index + count) * 8 ≤ length file
      → LongMethods n methods
      → Owes (LongMethods (n + count)) (
          read_method_references file string_count type_count proto_count strings types prototypes
            method_offset count index methods)
  unfolding read_method_references
  read_method_references-Owes method_offset zero index n methods inside h =
      Owes-ok (LongMethods (n + 0)) methods (omega (arith, h))
  read_method_references-Owes method_offset (suc count) index n methods inside h =
      Owes-then (LongMethods (n + suc count))
        (read_method_reference file string_count type_count proto_count strings types prototypes
          (method_offset + index * 8))
        _ (read_method_reference-Owes _ (omega (arith, inside)))
        (λ reference.
          Owes-map (LongMethods (suc n + count)) (LongMethods (n + suc count)) _
            (read_method_references-Owes method_offset count (index + 1) (suc n)
              (methods ++ (reference ∷ [])) (omega (arith, inside))
              (length_grown methods reference n h))
            (λ t h'. omega (arith, h')))
