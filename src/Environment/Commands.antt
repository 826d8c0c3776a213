-- ===== src/Environment/Commands.antt =====
-- services/environment/commands.py: `HostCheckCommandBuilder`, the fixed commands of the checks. Its
-- two lists are given command by command.
use sglang_ops_stack.Base.{String, List, [], ◌∷◌, some, true}
use sglang_ops_stack.Remote.Spec.{
  CommandSpec, command_spec, service_change, package_install, docker_run,
}

abbrev pub cuda_test_image : String
cuda_test_image = "nvidia/cuda:12.4.1-base-ubuntu22.04"

abbrev pub nvidia_container_toolkit_repo : String
nvidia_container_toolkit_repo =
    "deb [signed-by=/usr/share/keyrings/nvidia-container-toolkit-keyring.gpg] https://nvidia.github.io/libnvidia-container/stable/deb/$(ARCH) /\n"

unfoldable pub ssh_smoke : CommandSpec
ssh_smoke = command_spec "ssh.smoke" "id" ("-u" ∷ []) "Verify SSH command execution"

unfoldable pub os_release : CommandSpec
os_release = command_spec "os.release" "cat" ("/etc/os-release" ∷ []) "Read OS release metadata"

unfoldable pub os_arch : CommandSpec
os_arch = command_spec "os.arch" "uname" ("-m" ∷ []) "Read machine architecture"

unfoldable pub gpu_lspci : CommandSpec
gpu_lspci = record (command_spec "gpu.lspci" "lspci" ("-nn" ∷ []) "Detect NVIDIA PCI devices") {
  allowed_exit_codes = 0 ∷ 1 ∷ [];
}

unfoldable pub driver_query : CommandSpec
driver_query =
    command_spec "driver.nvidia_smi" "nvidia-smi"
      ("--query-gpu=driver_version,name" ∷ "--format=csv,noheader" ∷ [])
      "Query NVIDIA driver and GPU names"

unfoldable pub docker_version : CommandSpec
docker_version =
    command_spec "docker.version" "docker" ("--version" ∷ []) "Check Docker client installation"

unfoldable pub docker_service_active : CommandSpec
docker_service_active =
    command_spec "docker.service_active" "systemctl" ("is-active" ∷ "docker" ∷ [])
      "Check Docker daemon state"

unfoldable pub docker_runtime_info : CommandSpec
docker_runtime_info =
    command_spec "nvidia_runtime.docker_info" "docker"
      ("info" ∷ "--format" ∷ "{{json .Runtimes}}" ∷ []) "Inspect Docker runtime configuration"

unfoldable pub nvidia_ctk_version : CommandSpec
nvidia_ctk_version =
    command_spec "nvidia_runtime.ctk_version" "nvidia-ctk" ("--version" ∷ [])
      "Check NVIDIA Container Toolkit"

unfoldable pub container_gpu_test : CommandSpec
container_gpu_test =
    record (command_spec "container.cuda_gpu_test" "docker"
      ("run" ∷ "--rm" ∷ "--gpus" ∷ "all" ∷ cuda_test_image ∷ "nvidia-smi" ∷ [])
      "Run CUDA test container to verify GPU visibility") {
        timeout_seconds = 120;
        risk = docker_run;
      }

unfoldable pub docker_apt_update : CommandSpec
docker_apt_update =
    record (command_spec "docker.apt_update" "apt-get" ("update" ∷ [])
      "Refresh apt package index before Docker installation") {
        sudo = true;
        timeout_seconds = 120;
        risk = package_install;
      }

unfoldable pub docker_install : CommandSpec
docker_install =
    record (command_spec "docker.install" "apt-get" ("install" ∷ "-y" ∷ "docker.io" ∷ [])
      "Install Docker package") { sudo = true; timeout_seconds = 300; risk = package_install }

unfoldable pub docker_enable_now : CommandSpec
docker_enable_now =
    record (command_spec "docker.enable_now" "systemctl" ("enable" ∷ "--now" ∷ "docker" ∷ [])
      "Enable and start Docker service") {
        sudo = true;
        timeout_seconds = 60;
        risk = service_change;
      }

unfoldable pub install_docker : List CommandSpec
install_docker = docker_apt_update ∷ docker_install ∷ docker_enable_now ∷ []

unfoldable pub nvidia_runtime_keyring_dir : CommandSpec
nvidia_runtime_keyring_dir =
    record (command_spec "nvidia_runtime.keyring_dir" "install"
      ("-d" ∷ "-m" ∷ "0755" ∷ "/usr/share/keyrings" ∷ [])
      "Create apt keyring directory for NVIDIA Container Toolkit repository") {
        sudo = true;
        timeout_seconds = 30;
        risk = package_install;
      }

unfoldable pub nvidia_runtime_download_gpg_key : CommandSpec
nvidia_runtime_download_gpg_key =
    record (command_spec "nvidia_runtime.download_gpg_key" "curl"
      ("-fsSL" ∷ "-o" ∷ "/tmp/nvidia-container-toolkit-keyring.asc"
        ∷ "https://nvidia.github.io/libnvidia-container/gpgkey" ∷ [])
      "Download NVIDIA Container Toolkit repository signing key") {
        timeout_seconds = 60;
        risk = package_install;
      }

unfoldable pub nvidia_runtime_install_gpg_keyring : CommandSpec
nvidia_runtime_install_gpg_keyring =
    record (command_spec "nvidia_runtime.install_gpg_keyring" "gpg"
      ("--yes" ∷ "--dearmor" ∷ "-o" ∷ "/usr/share/keyrings/nvidia-container-toolkit-keyring.gpg"
        ∷ "/tmp/nvidia-container-toolkit-keyring.asc" ∷ [])
      "Install NVIDIA Container Toolkit apt signing keyring") {
        sudo = true;
        timeout_seconds = 60;
        risk = package_install;
      }

unfoldable pub nvidia_runtime_write_repo_list : CommandSpec
nvidia_runtime_write_repo_list =
    record (command_spec "nvidia_runtime.write_repo_list" "tee"
      ("/etc/apt/sources.list.d/nvidia-container-toolkit.list" ∷ [])
      "Write NVIDIA Container Toolkit apt repository list") {
        sudo = true;
        timeout_seconds = 30;
        risk = package_install;
        stdin = some nvidia_container_toolkit_repo;
      }

unfoldable pub nvidia_runtime_apt_update : CommandSpec
nvidia_runtime_apt_update =
    record (command_spec "nvidia_runtime.apt_update" "apt-get" ("update" ∷ [])
      "Refresh apt package index after adding NVIDIA Container Toolkit repository") {
        sudo = true;
        timeout_seconds = 120;
        risk = package_install;
      }

unfoldable pub nvidia_runtime_install_toolkit : CommandSpec
nvidia_runtime_install_toolkit =
    record (command_spec "nvidia_runtime.install_toolkit" "apt-get"
      ("install" ∷ "-y" ∷ "nvidia-container-toolkit" ∷ [])
      "Install NVIDIA Container Toolkit package") {
        sudo = true;
        timeout_seconds = 300;
        risk = package_install;
      }

unfoldable pub nvidia_runtime_configure : CommandSpec
nvidia_runtime_configure =
    record (command_spec "nvidia_runtime.configure" "nvidia-ctk"
      ("runtime" ∷ "configure" ∷ "--runtime=docker" ∷ []) "Configure Docker NVIDIA runtime") {
        sudo = true;
        timeout_seconds = 60;
        risk = service_change;
      }

unfoldable pub nvidia_runtime_restart_docker : CommandSpec
nvidia_runtime_restart_docker =
    record (command_spec "nvidia_runtime.restart_docker" "systemctl" ("restart" ∷ "docker" ∷ [])
      "Restart Docker to apply NVIDIA runtime configuration") {
        sudo = true;
        timeout_seconds = 60;
        risk = service_change;
      }

unfoldable pub configure_nvidia_runtime : List CommandSpec
configure_nvidia_runtime =
    nvidia_runtime_keyring_dir ∷ nvidia_runtime_download_gpg_key
    ∷ nvidia_runtime_install_gpg_keyring ∷ nvidia_runtime_write_repo_list
    ∷ nvidia_runtime_apt_update ∷ nvidia_runtime_install_toolkit ∷ nvidia_runtime_configure
    ∷ nvidia_runtime_restart_docker ∷ []
