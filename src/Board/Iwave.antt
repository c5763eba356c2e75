-- ===== src/Board/Iwave.antt =====
-- The registers of the accelerator in hw/src/axi_tangxi.c. `iwave_args` has the fields of the driver's
-- struct, and each ENGINE register stands for the driver's register of its meaning.
use soc.Common.{◌≡◌, refl, List, [], ◌∷◌, ◌++◌}
use soc.Driver.Registers.{Register, Write, writel, NetworkAccReg, acc_config, acc_start}
use soc.Driver.Device.{AccResults}

unfoldable pub iwave_args_config : NetworkAccReg → List Write
iwave_args_config args =
    writel args.weight_addr Register.network_acc_weight_addr
    ∷ writel args.weight_size Register.network_acc_weight_size
    ∷ writel args.quantify_addr Register.network_acc_quantify_addr
    ∷ writel args.quantify_size Register.network_acc_quantify_size
    ∷ writel args.picture_addr Register.network_acc_picture_addr
    ∷ writel args.picture_size Register.network_acc_picture_size
    ∷ []

-- What the four result registers hold goes to the struct.
unfoldable pub get_iwave_args : AccResults → NetworkAccReg → NetworkAccReg
get_iwave_args results args = record args {
  trans_addr = results.trans_addr;
  trans_size = results.trans_size;
  entropy_addr = results.entropy_addr;
  entropy_size = results.entropy_size;
}

-- The writes, and `*args`.
unfoldable pub iwave_start : NetworkAccReg → List Write × NetworkAccReg
iwave_start args = (writel 1 Register.network_acc_control ∷ [], record args { control = 1 })

-- A run of the accelerator, as the kernel's driver does it with its two requests: the same writes, and
-- afterwards the struct holds the results and, but for the control word, what it was configured with.
pub iwave-acc :
    (args : NetworkAccReg) (results : AccResults)
    → (iwave_args_config args ++ (iwave_start args).0 ≡ acc_config args ++ acc_start)
      × (iwave_args_config (get_iwave_args results (iwave_start args).1) ≡ iwave_args_config args)
unfolding iwave_args_config get_iwave_args iwave_start acc_config acc_start
iwave-acc args results = (refl, refl)
