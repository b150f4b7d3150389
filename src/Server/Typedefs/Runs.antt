-- ===== src/Server/Typedefs/Runs.antt =====
-- Runs of followTypedefs of server/eval.go.
use debug.Common.{ℕ, zero, suc, ◌≡◌, refl, ◌⊎◌, inl, inr, none, some, [], ◌∷◌, arith}
use debug.Server.Typedefs.{follow_typedefs}
use debug.Common.Result.{ok}
use debug.Dwarf.Types.{int_type, basic_type, typedef_type, TypeHeap}
use debug.Server.Typedefs.Ends.{follow_typedefs-LeadsTo}
use debug.Server.Typedefs.Cycles.{after_steps, Endless, follow_typedefs-Endless}

-- An integer, a typedef of it, and a typedef of that one.
abbrev named_twice : TypeHeap
named_twice =
    record {
      common = record { byte_size = 8; name = b'i' ∷ []; reflect_kind = 0; offset = 11 };
      shape = basic_type int_type 0 0;
    }
    ∷ record {
      common = record { byte_size = 0; name = b'a' ∷ []; reflect_kind = 0; offset = 16 };
      shape = typedef_type (some 0);
    }
    ∷ record {
      common = record { byte_size = 0; name = b'b' ∷ []; reflect_kind = 0; offset = 21 };
      shape = typedef_type (some 1);
    }
    ∷ []

follow_typedefs-LeadsTo_example : follow_typedefs named_twice (some 2) ≡ ok (some 0)
follow_typedefs-LeadsTo_example =
    follow_typedefs-LeadsTo named_twice 2 (some 2) (some 0)
      (some 1, refl, (some 0, refl, (refl, refl))) (omega arith)

-- Two typedefs of each other.
abbrev one_another : TypeHeap
one_another =
    record {
      common = record { byte_size = 0; name = b'a' ∷ []; reflect_kind = 0; offset = 11 };
      shape = typedef_type (some 1);
    }
    ∷ record {
      common = record { byte_size = 0; name = b'b' ∷ []; reflect_kind = 0; offset = 16 };
      shape = typedef_type (some 0);
    }
    ∷ []

around :
    (n : ℕ)
    → (after_steps one_another n (some 0) ≡ some 0) ⊎ (after_steps one_another n (some 0) ≡ some 1)
around zero = inl refl
around (suc n) = elim (around n) [ inl a ↦ inr (rw a refl) | inr b ↦ inl (rw b refl) ]

around-Endless : Endless one_another (some 0)
around-Endless n = elim (around n) [
  | inl a ↦ rw a (λ e. absurd (ground (arith, e)))
  | inr b ↦ rw b (λ e. absurd (ground (arith, e)))
]

follow_typedefs-Endless_example : follow_typedefs one_another (some 0) ≡ ok none
follow_typedefs-Endless_example = follow_typedefs-Endless one_another (some 0) around-Endless
