-- ===== src/Driver/Lifecycle/Balance.antt =====
-- What the driver acquires and what it gives back.
use soc.Common.{
  ℕ, ◌+◌, ◌≡◌, refl, List, [], ◌∷◌, ◌++◌, map, Bool, true, false, not, ◌&&◌, ◌⊎◌, inl, inr,
  Bool-cases, Option-cases, if◌then◌else◌, arith,
}
use soc.Common.Effects.{pos, negsuc, is_negative}
use soc.Driver.Registers.{Register}
use soc.Driver.Lifecycle.{
  Resource, irq_line, chrdev_region, cdev, device_class, device_node, mapping, InitAnswers, reg_map,
  reg_unmap, if_done, map_all, kept, before_class, axitangxi_chrdev_init, axitangxi_chrdev_exit,
  axitangxi_probe,
}

-- The sum of a weight over a list: two lists hold the same items, as often, if all weights agree.
abbrev pub total : (Resource → ℕ) → List Resource → ℕ
total weight [] = 0
total weight (r ∷ rs) = weight r + total weight rs

abbrev pub SameItems : List Resource → List Resource → Type 0
SameItems xs ys = (weight : Resource → ℕ) → total weight xs ≡ total weight ys

-- What the driver failed to acquire without noticing.
abbrev pub unnoticed : InitAnswers → List Resource
unnoticed a =
    if_done (not a.irq_requested) irq_line
    ++ (if_done (not a.region_allocated) chrdev_region
        ++ (if_done (not a.cdev_added) cdev ++ map_all (λ r. not (a.mapped r)) reg_map))

total-append :
    (weight : Resource → ℕ) (xs ys : List Resource)
    → total weight (xs ++ ys) ≡ total weight xs + total weight ys
total-append weight [] ys = omega arith
total-append weight (x ∷ xs) ys = omega (arith, total-append weight xs ys)

either :
    (weight : Resource → ℕ) (done : Bool) (r : Resource)
    → total weight (if_done done r) + total weight (if_done (not done) r) ≡ weight r
either weight true r = omega arith
either weight false r = omega arith

map_all-either :
    (weight : Resource → ℕ) (mapped : Register → Bool) (registers : List (Register × ℕ))
    → total weight (map_all mapped registers)
        + total weight (map_all (λ r. not (mapped r)) registers)
      ≡ total weight (map (λ (m : Register × ℕ). mapping m.0) registers)
map_all-either weight mapped [] = refl
map_all-either weight mapped ((r, addr) ∷ registers) = omega (
  arith,
  total-append weight (if_done (mapped r) (mapping r)) (map_all mapped registers),
  total-append weight (if_done (not (mapped r)) (mapping r))
      (map_all (λ q. not (mapped q)) registers),
  either weight (mapped r) (mapping r),
  map_all-either weight mapped registers,
)

-- What is held after a success but for `before_class`.
abbrev after_class : InitAnswers → List Resource
after_class a = device_class ∷ device_node ∷ map_all a.mapped reg_map

axitangxi_chrdev_init_cases :
    (a : InitAnswers)
    → (axitangxi_chrdev_init a ≡ (pos 0, before_class a ++ after_class a))
      ⊎ (is_negative (axitangxi_chrdev_init a).0 ≡ true)
unfolding axitangxi_chrdev_init
axitangxi_chrdev_init_cases a = elim (Bool-cases a.node_found) [
  | inr missing ↦ inr (rw missing refl)
  | inl found ↦ elim (Option-cases a.class_error) [
    | inr (k, e) ↦ inr (rw (found, e) refl)
    | inl no_error ↦ elim (Option-cases a.device_error) [
      | inr (k, e) ↦ inr (rw (found, no_error, e) refl)
      | inl no_error' ↦ inl (rw (found, no_error, no_error') refl)
    ]
  ]
]

-- What is held and what went unnoticed, where `k` is kept and `m` and `m'` are the mappings that
-- succeed and fail.
held_balance :
    (weight : Resource → ℕ) (k m m' maps : List Resource) (irq region added : Bool)
    → total weight m + total weight m' ≡ total weight maps
    → total weight (
        ((k ++ (if_done irq irq_line ++ (if_done region chrdev_region ++ if_done added cdev)))
          ++ (device_class ∷ device_node ∷ m))
        ++ (if_done (not irq) irq_line
            ++ (if_done (not region) chrdev_region ++ (if_done (not added) cdev ++ m'))))
      ≡ total weight
          ((irq_line ∷ maps ++ (cdev ∷ chrdev_region ∷ device_node ∷ device_class ∷ [])) ++ k)
held_balance weight k m m' maps irq region added h =
    let after = device_class ∷ device_node ∷ m in
    let added' = if_done (not added) cdev in
    let region' = if_done (not region) chrdev_region in
    let irq' = if_done (not irq) irq_line in
    let last = cdev ∷ chrdev_region ∷ device_node ∷ device_class ∷ [] in
    omega (
      arith,
      h,
      total-append weight
          ((k ++ (if_done irq irq_line ++ (if_done region chrdev_region ++ if_done added cdev)))
            ++ after)
          (irq' ++ (region' ++ (added' ++ m'))),
      total-append weight
          (k ++ (if_done irq irq_line ++ (if_done region chrdev_region ++ if_done added cdev)))
          after,
      total-append weight k
          (if_done irq irq_line ++ (if_done region chrdev_region ++ if_done added cdev)),
      total-append weight (if_done irq irq_line)
          (if_done region chrdev_region ++ if_done added cdev),
      total-append weight (if_done region chrdev_region) (if_done added cdev),
      total-append weight irq' (region' ++ (added' ++ m')),
      total-append weight region' (added' ++ m'),
      total-append weight added' m',
      total-append weight (maps ++ last) k,
      total-append weight maps last,
      either weight irq irq_line,
      either weight region chrdev_region,
      either weight added cdev,
    )

held_same :
    (a : InitAnswers)
    → SameItems ((before_class a ++ after_class a) ++ unnoticed a) (axitangxi_chrdev_exit ++ kept a)
unfolding axitangxi_chrdev_exit
held_same a weight =
    held_balance weight (kept a) (map_all a.mapped reg_map)
      (map_all (λ r. not (a.mapped r)) reg_map) (map mapping reg_unmap) a.irq_requested
      a.region_allocated a.cdev_added (map_all-either weight a.mapped reg_map)

-- A probe either succeeds, and the driver holds what axitangxi_chrdev_exit gives back, each resource as
-- often, and the reference to the device tree's node and the mapping of the interrupt's number, which
-- nothing gives back, but for those that it failed to acquire without noticing (the interrupt line, the
-- device numbers, the character device and mappings of registers); or it fails, the device structure is
-- freed if there was one, and whatever axitangxi_chrdev_init had acquired stays.
pub axitangxi_probe-exit :
    (allocated mask_set : Bool) (a : InitAnswers)
    → (((axitangxi_probe allocated mask_set a).result ≡ pos 0)
        × ((axitangxi_probe allocated mask_set a).device ≡ true)
        × SameItems
            ((axitangxi_probe allocated mask_set a).held ++ unnoticed a)
            (axitangxi_chrdev_exit ++ kept a))
      ⊎ (((axitangxi_probe allocated mask_set a).result
            ≡ (if allocated then negsuc 37 else negsuc 11))
          × ((axitangxi_probe allocated mask_set a).device ≡ false)
          × ((axitangxi_probe allocated mask_set a).held
              ≡ (if allocated && mask_set then (axitangxi_chrdev_init a).1 else [])))
unfolding axitangxi_probe
axitangxi_probe-exit false mask_set a = inr (refl, refl, refl)
axitangxi_probe-exit true false a = inr (refl, refl, refl)
axitangxi_probe-exit true true a = elim (axitangxi_chrdev_init_cases a) [
  | inl done ↦ rw done (inl (refl, refl, held_same a))
  | inr failed ↦ rw failed (inr (refl, refl, refl))
]
