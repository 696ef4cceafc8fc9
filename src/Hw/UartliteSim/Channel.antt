-- ===== src/Hw/UartliteSim/Channel.antt =====
-- The registers of the write side one by one: a channel, and the output.
use qinglong_core.Prelude.{
  ◌≡◌, refl, sym, ap, ap₂, ◌∙◌, if◌then◌else◌, Bool, true, false, List, [], ◌∷◌, ◌++◌, append-nil,
  Bytes, Bool-cases, inl, inr,
}

-- A channel that holds one: what was taken is what is done and what is held.
module _ {A : Type 0} (ans full takes : Bool) (x held : A) (done taken : List A) where
  pub channel_done :
      ans ≡ true
      → takes ≡ false
      → taken ≡ done ++ held ∷ []
      → taken ++ (if takes then x ∷ [] else [])
        ≡ (done ++ held ∷ [])
          ++ (if (if ans then false else if takes then true else full)
              then (if takes then x else held) ∷ []
              else [])
  channel_done ea et e = rw (ea, et) (append-nil taken ∙ e ∙ sym (append-nil (done ++ held ∷ [])))

  channel_holds :
      ans ≡ false
      → takes ≡ false
      → taken ≡ done ++ (if full then held ∷ [] else [])
      → taken ++ (if takes then x ∷ [] else [])
        ≡ done
          ++ (if (if ans then false else if takes then true else full)
              then (if takes then x else held) ∷ []
              else [])
  channel_holds ea et e = rw (ea, et) (append-nil taken ∙ e)

  channel_takes :
      ans ≡ false
      → takes ≡ true
      → taken ≡ done ++ []
      → taken ++ (if takes then x ∷ [] else [])
        ≡ done
          ++ (if (if ans then false else if takes then true else full)
              then (if takes then x else held) ∷ []
              else [])
  channel_takes ea et e = rw (ea, et) (ap (λ (t : List A). t ++ x ∷ []) (e ∙ append-nil done))

  -- Without an answer the channel goes on; it takes only when it is empty.
  pub channel_goes :
      ans ≡ false
      → (takes ≡ true → full ≡ false)
      → taken ≡ done ++ (if full then held ∷ [] else [])
      → taken ++ (if takes then x ∷ [] else [])
        ≡ done
          ++ (if (if ans then false else if takes then true else full)
              then (if takes then x else held) ∷ []
              else [])
  channel_goes ea h e = elim (Bool-cases takes) [
    | inl t ↦
        channel_takes ea t (e ∙ ap (λ (b : Bool). done ++ (if b then held ∷ [] else [])) (h t))
    | inr t ↦ channel_holds ea t e
  ]

-- The output behind an edge, whose pending byte is `z`, before it `y`.
module _ (ans f bv : Bool) (out done y z : Bytes) where
  pub out_done :
      ans ≡ true
      → f ≡ false
      → out ≡ done
      → (if f then out ++ y else out)
        ≡ done ++ (if (if ans then false else if f then true else bv) then z else [])
  out_done ea ef e = rw (ea, ef) (e ∙ sym (append-nil done))

  pub out_fires :
      ans ≡ false
      → f ≡ true
      → out ≡ done ++ []
      → y ≡ z
      → (if f then out ++ y else out)
        ≡ done ++ (if (if ans then false else if f then true else bv) then z else [])
  out_fires ea ef e h = rw (ea, ef) (ap₂ (λ (s t : Bytes). s ++ t) (e ∙ append-nil done) h)

  pub out_waits :
      ans ≡ false
      → f ≡ false
      → out ≡ done ++ (if bv then y else [])
      → (bv ≡ true → y ≡ z)
      → (if f then out ++ y else out)
        ≡ done ++ (if (if ans then false else if f then true else bv) then z else [])
  out_waits ea ef e h = elim (Bool-cases bv) [
    | inl b ↦
        rw (ea, ef, b) (e ∙ ap₂ (λ (c : Bool) (s : Bytes). done ++ (if c then s else [])) b (h b))
    | inr b ↦ rw (ea, ef, b) (e ∙ ap (λ (c : Bool). done ++ (if c then y else [])) b)
  ]

pub kept :
    {A : Type 0} (takes : Bool) (x held : A) → takes ≡ false → held ≡ (if takes then x else held)
kept takes x held e = rw e refl
