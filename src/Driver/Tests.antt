-- ===== src/Driver/Tests.antt =====
-- The theorems about the driver, applied to concrete transfers.
use soc.Common.{
  ◌-◌, ℕ, ◌%◌, ◌^◌, ◌≡◌, ◌≢◌, refl, ◌⊎◌, ◌++◌, List, [], ◌∷◌, length, none, some, true, false,
  arith,
}
use soc.Common.Effects.{returns, pos, negsuc}
use soc.Driver.Registers.{
  NetworkAccReg, acc_config, acc_start, mm2s_ps_data_s2mm_pl, mm2s_ps_data_s2mm_pl,
  s2mm_ps_data_mm2s_pl,
}
use soc.Driver.Bursts.{
  AxitangxiTransfer, align_16, last_burst, burst_loop, batch_s2mm_ps_data_mm2s_pl,
}
use soc.Driver.Bursts.Coverage.{Burst, Chain, round_16, writes}
use soc.Driver.Lifecycle.{
  InitAnswers, kept, axitangxi_chrdev_init, axitangxi_chrdev_exit, axitangxi_probe,
}
use soc.Driver.Lifecycle.Balance.{SameItems, unnoticed, axitangxi_probe-exit}
use soc.Driver.Device.{Request, psddr_to_plddr_cmd, axitangxi_ioctl}
use soc.Driver.Device.Session.{ReadAnswers, Got, pl_run, pl_get, read_results, pl_run-pl_get}
use soc.Driver.Device.Stuck.{axitangxi_ioctl_stuck}
use soc.Driver.Memory.{
  AxitangxiAllocation, DmaRegion, axitangxi_mmap, axitangxi_uservirt_to_phys, axitangxi_vma_close,
  mmap-translates,
}
use soc.Driver.Access.{
  FileAnswers, null, map_failed, memory, IsUnread, not_opened, pl_init, pl_init_unread,
}
use soc.Driver.Requests.{
  AxitangxiTransaction, init_trans, psddr_to_plddr, plddr_to_psddr, transfer-Chain,
}

abbrev region : DmaRegion
region = record { kern_addr = 0x9000; dma_addr = 0x30000000 }

-- Memory that the process sees at 0x5000.
abbrev mapped : List AxitangxiAllocation
mapped =
    record {
      address = 16;
      size = 4096;
      user_addr = 0x5000;
      kern_addr = 0x9000;
      phys_addr = 0x30000000;
      dma_addr = 0x30000000;
    }
    ∷ []

mmap-translates_example :
    (after : List AxitangxiAllocation) × (axitangxi_mmap (some 16) (some region) none 0x5000 4096 []
      ≡ returns (pos 0, after))
    × (axitangxi_uservirt_to_phys after 0x5000 ≡ 0x30000000 % 2 ^ 32)
    × ((other : ℕ)
        → 0x5000 ≢ other
        → axitangxi_uservirt_to_phys after other ≡ axitangxi_uservirt_to_phys [] other)
    × (axitangxi_vma_close 16 after ≡ [])
mmap-translates_example = mmap-translates 16 0x5000 4096 region []

-- 1048601 bytes: a burst of 65536 units and one of two.
transfer-Chain_example :
    (bursts : List Burst) × (psddr_to_plddr 1048602 mapped (init_trans 0x5000 0x20000000 1048601)
      ≡ some (writes mm2s_ps_data_s2mm_pl true bursts))
    × (plddr_to_psddr 1048602 mapped (init_trans 0x5000 0x20000000 1048601)
        ≡ some (writes s2mm_ps_data_mm2s_pl true bursts))
    × Chain true 65536
        (axitangxi_uservirt_to_phys mapped 0x5000)
        0x20000000
        (round_16 1048601)
        bursts
    × ((init_trans 0x5000 0x20000000 1048601).burst_count ≡ length bursts)
transfer-Chain_example =
    transfer-Chain 1048602 0x5000 0x20000000 1048601 mapped (omega arith) (omega arith)
      (omega arith)

abbrev small_transfer : AxitangxiTransfer
small_transfer = record {
  tx_data_size = 40;
  rx_data_size = 70;
  burst_size = 2;
  burst_data = 32;
  tx_data_ps_ptr = 0x30000000;
  rx_data_ps_ptr = 0x30001000;
  tx_data_pl_ptr = 0x1000;
  rx_data_pl_ptr = 0x2000;
}

-- The second of three bursts reads the same PL address as the first.
same_pl_address :
    batch_s2mm_ps_data_mm2s_pl 71 small_transfer
    ≡ some (
        writes s2mm_ps_data_mm2s_pl false (
          record { ps = 0x30001000; pl = 0x2000; beats = 2 }
          ∷ record { ps = 0x30001020; pl = 0x2000; beats = 2 }
          ∷ record { ps = 0x30001040; pl = 0x2000; beats = 1 }
          ∷ []))
unfolding batch_s2mm_ps_data_mm2s_pl burst_loop last_burst align_16 s2mm_ps_data_mm2s_pl
same_pl_address = refl

-- A weight file that is not there.
abbrev no_file : FileAnswers
no_file = record {
  opened = false;
  st_size = none;
  mapped = map_failed;
  size = none;
  closed = false;
}

no_file-IsUnread : IsUnread no_file
no_file-IsUnread = not_opened refl

pl_init_unread_example : pl_init no_file true (memory 0x5000) true 0x10000000 ≡ returns (2 ^ 32 - 1)
pl_init_unread_example =
    pl_init_unread no_file true true (memory 0x5000) 0x10000000 no_file-IsUnread

abbrev answers : InitAnswers
answers = record {
  node_found = true;
  reg_read = true;
  irq_mapped = true;
  irq_requested = false;
  region_allocated = true;
  cdev_added = true;
  class_error = none;
  device_error = none;
  mapped = λ register. true;
}

axitangxi_probe-exit_example :
    (((axitangxi_probe true true answers).result ≡ pos 0)
      × ((axitangxi_probe true true answers).device ≡ true)
      × SameItems
          ((axitangxi_probe true true answers).held ++ unnoticed answers)
          (axitangxi_chrdev_exit ++ kept answers))
    ⊎ (((axitangxi_probe true true answers).result ≡ negsuc 37)
        × ((axitangxi_probe true true answers).device ≡ false)
        × ((axitangxi_probe true true answers).held ≡ (axitangxi_chrdev_init answers).1))
axitangxi_probe-exit_example = axitangxi_probe-exit true true answers

abbrev regs : NetworkAccReg
regs = record {
  control = 0;
  weight_addr = 0x15000000;
  weight_size = 4096;
  quantify_addr = 0;
  quantify_size = 0;
  picture_addr = 0x10000000;
  picture_size = 512;
  trans_addr = 0;
  trans_size = 0;
  entropy_addr = 0;
  entropy_size = 0;
}

abbrev stack : NetworkAccReg
stack = record regs { weight_addr = 0xdead; weight_size = 7 }

abbrev request : Request
request = record {
  trans = some (init_trans 0x5000 0x20000000 1048601);
  regs = some regs;
  completed = true;
  results = record {
    trans_addr = 0x20000000;
    trans_size = 64;
    entropy_addr = 0x21000000;
    entropy_size = 64;
  };
  copied_out = true;
  iargs = stack;
}

-- No bytes in a burst.
abbrev no_burst : AxitangxiTransaction
no_burst = record (init_trans 0x5000 0x20000000 100) { burst_data = 0 }

axitangxi_ioctl_stuck_example :
    axitangxi_ioctl 1000 mapped (record request { trans = some no_burst }) psddr_to_plddr_cmd ≡ none
unfolding init_trans
axitangxi_ioctl_stuck_example =
    axitangxi_ioctl_stuck 1000 mapped (record request { trans = some no_burst }) no_burst refl refl
      (omega arith) (omega arith)

abbrev read_done : ReadAnswers
read_done = record { done = true; mapped = memory 0x7000 }

abbrev got_example : Got
got_example = record {
  reg = record stack {
    trans_addr = 0x20000000;
    trans_size = 64;
    entropy_addr = 0x21000000;
    entropy_size = 64;
  };
  trans_addr = memory 0x7000;
  entropy_addr = memory 0x7000;
}

got_run : pl_get 0 mapped request read_done read_done regs null null ≡ returns (some got_example)
unfolding pl_get read_results
got_run = refl

pl_run-pl_get_example :
    pl_run 0 mapped request request
      (record got_example.reg { picture_addr = 0x10000000; picture_size = 128 })
    ≡ returns (
        some (
          acc_config (record stack { picture_addr = 0x10000000; picture_size = 128 }) ++ acc_start))
pl_run-pl_get_example =
    pl_run-pl_get 0 mapped request request request read_done read_done regs null null got_example
      0x10000000 128 got_run
