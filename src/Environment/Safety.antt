-- ===== src/Environment/Safety.antt =====
-- What a check may do to a host, and what it may write to the log.
use Prim.Native.String.{String}
use mathlib.Core.List.{Memᴰ}
use sglang_ops_stack.Base.{
  ℕ, zero, suc, Bool, true, sym, ap, ◌∙◌, false, List, [], ◌∷◌, ◌++◌, Option, none, some, ◌≡◌, refl,
  All, All-append, subst, arith,
}
use sglang_ops_stack.Base.Exec.Keeps.{Keeps-modify}
use sglang_ops_stack.Remote.Spec.{CommandSpec}
use sglang_ops_stack.Masking.{mask_secret}
use sglang_ops_stack.Db.{Host, JobLog, Session}
use sglang_ops_stack.Jobs.{add_log}
use sglang_ops_stack.Environment.Commands
use sglang_ops_stack.Environment.Runner.{World, Runner, log, new_runner}
use sglang_ops_stack.Environment.Stable.{AllowsProbes}
use sglang_ops_stack.Environment.Whole.{Persistent, check-Keeps, confirm_install-Keeps}
use sglang_ops_stack.Environment.Run.{check, confirm_install}

-- What a command runs: whether with sudo, its executable, its arguments and its input.
abbrev pub Line : Type 0
Line = Bool × String × List String × Option String

abbrev pub line : CommandSpec → Line
line spec = (spec.sudo, spec.executable, spec.args, spec.stdin)

abbrev plain : String → List String → Line
plain executable args = (false, executable, args, none)

abbrev root : String → List String → Line
root executable args = (true, executable, args, none)

abbrev pub probe_lines : List Line
probe_lines =
    plain "id" ("-u" ∷ [])
    ∷ plain "cat" ("/etc/os-release" ∷ [])
    ∷ plain "uname" ("-m" ∷ [])
    ∷ plain "lspci" ("-nn" ∷ [])
    ∷ plain "nvidia-smi" ("--query-gpu=driver_version,name" ∷ "--format=csv,noheader" ∷ [])
    ∷ plain "docker" ("--version" ∷ [])
    ∷ plain "systemctl" ("is-active" ∷ "docker" ∷ [])
    ∷ plain "nvidia-ctk" ("--version" ∷ [])
    ∷ plain "docker" ("info" ∷ "--format" ∷ "{{json .Runtimes}}" ∷ [])
    ∷ plain "docker" (
        "run" ∷ "--rm" ∷ "--gpus" ∷ "all" ∷ "nvidia/cuda:12.4.1-base-ubuntu22.04" ∷ "nvidia-smi"
        ∷ [])
    ∷ []

-- One of the ten commands: nine that only read, and one that runs (and may pull) the CUDA image in
-- a container that is removed.
abbrev pub IsProbe : CommandSpec → Type 0
IsProbe spec = Memᴰ (line spec) probe_lines

item {ℓ} : {A : Type ℓ} → ℕ → List A → Option A
item n [] = none
item zero (x ∷ xs) = some x
item (suc n) (x ∷ xs) = item n xs

listed {ℓ} : {A : Type ℓ} {x : A} (n : ℕ) (xs : List A) → item n xs ≡ some x → Memᴰ x xs
unfolding item
listed n [] h = ground arith
listed zero (y ∷ ys) h = Memᴰ.head (ground arith)
listed (suc n) (y ∷ ys) h = Memᴰ.tail (listed n ys h)

SentProbes : (w : World) → Persistent w (λ r. All IsProbe r.sent) IsProbe
unfolding log add_log
SentProbes w = record {
  elsewhere = λ r r' logs password sent h. subst (All IsProbe) sent h;
  logging = λ level message. Keeps-modify _ (λ r h. h);
  sending = λ spec allowed r h. All-append IsProbe r.sent (spec ∷ []) h (allowed, tt);
}

probes : AllowsProbes IsProbe
unfolding item Commands.ssh_smoke Commands.os_release Commands.os_arch Commands.gpu_lspci
    Commands.driver_query Commands.docker_version Commands.docker_service_active
    Commands.nvidia_ctk_version Commands.docker_runtime_info Commands.container_gpu_test
probes = record {
  ssh_smoke = listed 0 probe_lines refl;
  os_release = listed 1 probe_lines refl;
  os_arch = listed 2 probe_lines refl;
  gpu_lspci = listed 3 probe_lines refl;
  driver_query = listed 4 probe_lines refl;
  docker_version = listed 5 probe_lines refl;
  docker_service_active = listed 6 probe_lines refl;
  nvidia_ctk_version = listed 7 probe_lines refl;
  docker_runtime_info = listed 8 probe_lines refl;
  container_gpu_test = listed 9 probe_lines refl;
}

-- Whatever the host answers, a check sends nothing but the ten commands of `probe_lines`, with
-- these arguments, without sudo and without an input.
pub check-sends-IsProbe :
    (w : World) (db : Session Host) (password : String)
    → All IsProbe (check w (new_runner db password)).1.sent
unfolding new_runner
check-sends-IsProbe w db password = (check-Keeps (SentProbes w) probes).at _ tt

abbrev pub install_lines : List Line
install_lines =
    root "apt-get" ("update" ∷ [])
    ∷ root "apt-get" ("install" ∷ "-y" ∷ "docker.io" ∷ [])
    ∷ root "systemctl" ("enable" ∷ "--now" ∷ "docker" ∷ [])
    ∷ root "install" ("-d" ∷ "-m" ∷ "0755" ∷ "/usr/share/keyrings" ∷ [])
    ∷ plain "curl" (
        "-fsSL" ∷ "-o" ∷ "/tmp/nvidia-container-toolkit-keyring.asc"
        ∷ "https://nvidia.github.io/libnvidia-container/gpgkey" ∷ [])
    ∷ root "gpg" (
        "--yes" ∷ "--dearmor" ∷ "-o" ∷ "/usr/share/keyrings/nvidia-container-toolkit-keyring.gpg"
        ∷ "/tmp/nvidia-container-toolkit-keyring.asc" ∷ [])
    ∷ (
      true,
      "tee",
      "/etc/apt/sources.list.d/nvidia-container-toolkit.list" ∷ [],
      some
          "deb [signed-by=/usr/share/keyrings/nvidia-container-toolkit-keyring.gpg] https://nvidia.github.io/libnvidia-container/stable/deb/$(ARCH) /\n",
    )
    ∷ root "apt-get" ("install" ∷ "-y" ∷ "nvidia-container-toolkit" ∷ [])
    ∷ root "nvidia-ctk" ("runtime" ∷ "configure" ∷ "--runtime=docker" ∷ [])
    ∷ root "systemctl" ("restart" ∷ "docker" ∷ [])
    ∷ []

abbrev known_lines : List Line
known_lines = probe_lines ++ install_lines

abbrev pub IsKnown : CommandSpec → Type 0
IsKnown spec = Memᴰ (line spec) known_lines

SentKnown : (w : World) → Persistent w (λ r. All IsKnown r.sent) IsKnown
unfolding log add_log
SentKnown w = record {
  elsewhere = λ r r' logs password sent h. subst (All IsKnown) sent h;
  logging = λ level message. Keeps-modify _ (λ r h. h);
  sending = λ spec allowed r h. All-append IsKnown r.sent (spec ∷ []) h (allowed, tt);
}

mem-append_left {ℓ} : {A : Type ℓ} {x : A} (xs ys : List A) → Memᴰ x xs → Memᴰ x (xs ++ ys)
mem-append_left [] ys m = elim m [ ]
mem-append_left (x ∷ xs) ys (Memᴰ.head e) = Memᴰ.head e
mem-append_left (x ∷ xs) ys (Memᴰ.tail m) = Memᴰ.tail (mem-append_left xs ys m)

of_probe : {x : Line} → Memᴰ x probe_lines → Memᴰ x known_lines
of_probe m = mem-append_left probe_lines install_lines m

known : AllowsProbes IsKnown
known = record {
  ssh_smoke = of_probe probes.ssh_smoke;
  os_release = of_probe probes.os_release;
  os_arch = of_probe probes.os_arch;
  gpu_lspci = of_probe probes.gpu_lspci;
  driver_query = of_probe probes.driver_query;
  docker_version = of_probe probes.docker_version;
  docker_service_active = of_probe probes.docker_service_active;
  nvidia_ctk_version = of_probe probes.nvidia_ctk_version;
  docker_runtime_info = of_probe probes.docker_runtime_info;
  container_gpu_test = of_probe probes.container_gpu_test;
}

known_at : {x : Line} (n : ℕ) → item n known_lines ≡ some x → Memᴰ x known_lines
known_at n h = listed n known_lines h

install_docker-IsKnown : All IsKnown Commands.install_docker
unfolding item Commands.install_docker Commands.docker_apt_update Commands.docker_install
    Commands.docker_enable_now
install_docker-IsKnown = (known_at 10 refl, (known_at 11 refl, (known_at 12 refl, tt)))

configure_nvidia_runtime-IsKnown : All IsKnown Commands.configure_nvidia_runtime
unfolding item Commands.configure_nvidia_runtime Commands.nvidia_runtime_keyring_dir
    Commands.nvidia_runtime_download_gpg_key Commands.nvidia_runtime_install_gpg_keyring
    Commands.nvidia_runtime_write_repo_list Commands.nvidia_runtime_apt_update
    Commands.nvidia_runtime_install_toolkit Commands.nvidia_runtime_configure
    Commands.nvidia_runtime_restart_docker
configure_nvidia_runtime-IsKnown = (
  known_at 13 refl,
  (
    known_at 14 refl,
    (
      known_at 15 refl,
      (
        known_at 16 refl,
        (known_at 10 refl, (known_at 17 refl, (known_at 18 refl, (known_at 19 refl, tt)))),
      ),
    ),
  ),
)

-- Whatever the host answers, a confirmed installation sends nothing but the commands of
-- `probe_lines` and `install_lines`, with these arguments, inputs and privileges.
pub confirm_install-sends-IsKnown :
    (w : World) (db : Session Host) (password : String)
    → All IsKnown (confirm_install w (new_runner db password)).1.sent
unfolding new_runner
confirm_install-sends-IsKnown w db password =
    (confirm_install-Keeps (SentKnown w) known install_docker-IsKnown
        configure_nvidia_runtime-IsKnown).at
      _ tt

-- In a list, each element satisfies what follows from being in the list.
All-mem {ℓ κ} : {A : Type ℓ} (P : A → Type κ) (xs : List A) → ((x : A) → Memᴰ x xs → P x) → All P xs
All-mem P [] h = tt
All-mem P (x ∷ xs) h = (h x (Memᴰ.head refl), All-mem P xs (λ y m. h y (Memᴰ.tail m)))

-- The message is the image of some text under `mask_secret` with the password among the secrets.
abbrev pub IsMasked : World → String → JobLog → Type 0
IsMasked w password log =
    (text : String) × (log.message ≡ mask_secret w.patterns text (password ∷ []))

abbrev LogsMasked : World → String → Runner → Type 0
LogsMasked w password r = (r.password ≡ password) × All (IsMasked w password) r.logs

LogsMasked-Persistent :
    (w : World) (password : String) (Allowed : CommandSpec → Type 0)
    → Persistent w (LogsMasked w password) Allowed
unfolding log add_log
LogsMasked-Persistent w password Allowed = record {
  elsewhere = λ r r' logs same sent h. (sym same ∙ h.0, subst (All (IsMasked w password)) logs h.1);
  logging = λ level message. Keeps-modify _ (λ r h. (
    h.0,
    All-append (IsMasked w password) r.logs _ h.1
        ((message, ap (λ p. mask_secret w.patterns message (p ∷ [])) h.0), tt),
  ));
  sending = λ spec allowed r h. h;
}

-- Both runs write to the log of the job only texts that went through `mask_secret` with the
-- password that was used: from rows that are so, all rows are so at the end, on every path.
pub check-logs-IsMasked :
    (w : World) (db : Session Host) (password : String)
    → All (IsMasked w password) db.logs
    → All (IsMasked w password) (check w (new_runner db password)).1.logs
      × All (IsMasked w password) (confirm_install w (new_runner db password)).1.logs
unfolding new_runner
check-logs-IsMasked w db password h =
    let keep = LogsMasked-Persistent w password (λ _. Unit) in
    (
      ((check-Keeps keep (search)).at _ (refl, h)).1,
      ((confirm_install-Keeps keep (search) (All-mem _ _ (λ x m. tt)) (All-mem _ _ (λ x m. tt))).at
          _ (refl, h)).1,
    )
