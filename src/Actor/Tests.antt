-- ===== src/Actor/Tests.antt =====
-- The machine of Actor/Naturals orders its numbers as the lemmas on clamped positions ask for.
use my_mmoproject.Base.{refl, arith}
use my_mmoproject.Actor.{IsOrdered}
use my_mmoproject.Actor.Naturals.{naturals}

naturals-IsOrdered : IsOrdered naturals
naturals-IsOrdered = record { irreflexive = λ a. ground arith; wide = refl; high = refl }
