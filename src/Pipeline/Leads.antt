-- ===== src/Pipeline/Leads.antt =====
-- How the steps of a request change the replies and the slots that are held.
use simple_api.Base.{
  ℕ, ◌+◌, ◌≡◌, refl, ◌∙◌, Bool, true, false, Option, none, some, [], ◌∷◌, arith, if◌then◌else◌,
  length, length-append, Text,
}
use simple_api.Base.Int64.{Int64}
use simple_api.Limiter.Counting.{held, IsCounted}
use simple_api.Pipeline.World.{Reply, World, reply, Step, continue, return}

-- `w'` has `n` replies more than `w`, and the same slots are held.
pub record Leads (w w' : World) (n : ℕ) : Type 0 where
  pub counted : IsCounted w.limiter → IsCounted w'.limiter
  pub same : (p : Text) → held p w'.limiter.handles ≡ held p w.limiter.handles
  pub replied : length w'.replies ≡ length w.replies + n

-- What a request leaves behind.
pub record IsAnswered (w w' : World) : Type 0 where
  pub counted : IsCounted w'.limiter
  pub same : (p : Text) → held p w'.limiter.handles ≡ held p w.limiter.handles
  pub replied : length w'.replies ≡ length w.replies + 1

abbrev pub StepLeads : World → Step → Type 0
StepLeads w (continue s) = Leads w s.world 0
StepLeads w (return w') = Leads w w' 1

pub reply-Leads : (w : World) (r : Reply) → Leads w (reply r w) 1
reply-Leads w r = record {
  counted = λ c. c;
  same = λ p. refl;
  replied = length-append w.replies (r ∷ []);
}

pub Leads-refl : (w : World) → Leads w w 0
Leads-refl w = record { counted = λ c. c; same = λ p. refl; replied = omega arith }

pub Leads-trans : {a b c : World} (m n : ℕ) → Leads a b m → Leads b c n → Leads a c (m + n)
Leads-trans m n f g = record {
  counted = λ c. g.counted (f.counted c);
  same = λ p. g.same p ∙ f.same p;
  replied = omega (arith, f.replied, g.replied);
}

pub Leads-step : (a b : World) (st : Step) → Leads a b 0 → StepLeads b st → StepLeads a st
Leads-step a b (continue s) f g = Leads-trans 0 0 f g
Leads-step a b (return w) f g = Leads-trans 0 1 f g

abbrev pub is_none : Option (Int64 × Text) → Bool
is_none none = true
is_none (some h) = false

pub step-if :
    (w : World) (b : Bool) (x y : Step)
    → (b ≡ true → StepLeads w x)
    → (b ≡ false → StepLeads w y)
    → StepLeads w (if b then x else y)
step-if w true x y p q = p refl
step-if w false x y p q = q refl

pub Leads-of-eq : {a b : World} (m n : ℕ) → Leads a b m → m ≡ n → Leads a b n
Leads-of-eq m n f e = rw (← e) f
