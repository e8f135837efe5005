-- ===== src/Operator/Guest.antt =====
-- tools/operator.c: the single launch of a guest.
use tcs.Prelude.{
  ℕ, ◌*◌, Bool, true, false, not, ◌&&◌, ◌||◌, leb, ltb, ◌==◌, if◌then◌else◌, Option, none, some,
  List, [], ◌∷◌, codes,
}
use tcs.Operator.Text.{number, absolute_argument}
use tcs.Operator.Host.{Step, ◌>>=◌, ◌>>◌, pass, refuse, check, Host, Crypto, patient}
use tcs.Operator.Files.{directory, closing, read_more, read_end, write_new}
use tcs.Operator.Identity.{identity_read, context_read}

-- The bound of the image, 64 MiB.
abbrev pub image_limit : ℕ
image_limit = 64 * 1024 * 1024

-- The arguments of `execv`.
abbrev pub guest_arguments : List ℕ → List (List ℕ)
guest_arguments qemu =
    qemu
    ∷ codes "-machine"
    ∷ codes "virt,virtualization=on"
    ∷ codes "-cpu"
    ∷ codes "cortex-a53"
    ∷ codes "-m"
    ∷ codes "2G"
    ∷ codes "-smp"
    ∷ codes "1"
    ∷ codes "-display"
    ∷ codes "none"
    ∷ codes "-no-reboot"
    ∷ codes "-chardev"
    ∷ codes "stdio,id=uart,signal=off"
    ∷ codes "-serial"
    ∷ codes "chardev:uart"
    ∷ codes "-monitor"
    ∷ codes "none"
    ∷ codes "-nic"
    ∷ codes "none"
    ∷ codes "-accel"
    ∷ codes "tcg"
    ∷ codes "-global"
    ∷ codes "fw_cfg_mem.dma_enabled=off"
    ∷ codes "-device"
    ∷ codes "loader,file=launch.img,addr=0x70000000,cpu-num=0,force-raw=on"
    ∷ codes "-fw_cfg"
    ∷ codes "name=opt/tcs/launch-context,file=launch.used"
    ∷ []

-- The descriptor that a name of /dev/fd stands for, where it is to be closed.
abbrev pub other_descriptor : ℕ → List ℕ → Option ℕ
other_descriptor scanner name = elim (number name) [
  | none ↦ none
  | some fd ↦ if leb fd 2147483647 && ltb 2 fd && not (fd == scanner) then some fd else none
]

-- EBADF
abbrev ebadf : ℕ
ebadf = 9

module _ {O : Type 0} (host : Host O) (crypto : Crypto) (mode : ℕ) where
  -- The body of the loop of `close_other_descriptors`.
  unfoldable pub close_one : Option ℕ → Step O (Unit {0})
  close_one none = pass tt
  close_one (some fd) = λ o.
      let (next, e) = host.close fd o in (next, if (e == 0) || (e == ebadf) then some tt else none)

  -- The loop of `close_other_descriptors`, which goes on where a close fails, with whether none has.
  unfoldable pub close_all : ℕ → List (List ℕ) → O → O × Bool
  close_all scanner [] o = (o, true)
  close_all scanner (name ∷ names) o =
      let (o1, done) = close_one (other_descriptor scanner name) o in
      let (o2, rest) = close_all scanner names o1 in
      (o2, elim done [ none ↦ false | some _ ↦ rest ])

  -- `close_other_descriptors`
  unfoldable pub close_other_descriptors : Step O (Unit {0})
  close_other_descriptors = do
    scan ← host.descriptors
    ok ← (λ o. let (next, all) = close_all scan.0 scan.1 o in (next, some all))
    host.end_descriptors scan.0
    check ok

  -- The image of a size, read to its end.
  unfoldable pub read_image : ℕ → ℕ → Step O (List ℕ)
  read_image fd size = do
    host.allocate size
    image ← patient host (λ n. read_more host fd n size []) size
    patient host (read_end host fd) 1
    pass image

  -- `launch_guest` past the open of the image: the session is consumed before anything is started.
  unfoldable pub start_guest : ℕ → ℕ → List ℕ → List ℕ → Step O (Unit {0})
  start_guest dir image_fd context qemu = do
    s ← host.fstat image_fd
    check (s.is_regular && not (s.size == 0) && leb s.size image_limit)
    write_new host dir (codes "launch.used") context
    image ← read_image image_fd s.size
    write_new host dir (codes "launch.img") image
    host.change_directory dir
    close_other_descriptors
    host.execute qemu (guest_arguments qemu)

  -- `launch_guest` with the directory of the session open.
  unfoldable pub launch_in : ℕ → ℕ → List ℕ → List ℕ → Step O (Unit {0})
  launch_in identity_fd dir image qemu = do
    identity ← identity_read host crypto mode identity_fd
    context ← context_read host crypto mode identity dir
    image_fd ← host.open_image image
    closing host image_fd (start_guest dir image_fd context.0 qemu)

  -- `launch_guest`, which never returns true.
  unfoldable pub launch_guest : ℕ → List ℕ → List ℕ → List ℕ → Step O (Unit {0})
  launch_guest identity_fd session image qemu = do
    check (absolute_argument image && absolute_argument qemu)
    dir ← directory host session false
    closing host dir (launch_in identity_fd dir image qemu)
    refuse
