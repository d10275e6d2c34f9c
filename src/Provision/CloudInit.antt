-- ===== src/Provision/CloudInit.antt =====
-- The cloud-init file of protocol-api/src/ironclaw/ironclaw-provisioner.ts, at the place of its key. A public key
-- holds no `$`, which the replacement would read in its own way.
use delibera_xyz.Prelude.{String}
use delibera_xyz.Prelude.Text.{◌<>◌}

abbrev before_key : String
before_key =
    "#cloud-config\nusers:\n  - name: ironclaw\n    groups: sudo\n    shell: /bin/bash\n    sudo: ALL=(ALL) NOPASSWD:ALL\n    ssh_authorized_keys:\n      - "

abbrev after_key : String
after_key =
    "\npackage_update: true\npackage_upgrade: true\npackages:\n  - ufw\n  - fail2ban\n  - tmux\n  - curl\n  - ca-certificates\n  - gnupg\nruncmd:\n  # Install Node.js 20 (for the Ensue MCP server)\n  - mkdir -p /etc/apt/keyrings\n  - curl -fsSL https://deb.nodesource.com/gpgkey/nodesource-repo.gpg.key | gpg --dearmor -o /etc/apt/keyrings/nodesource.gpg\n  - echo \"deb [signed-by=/etc/apt/keyrings/nodesource.gpg] https://deb.nodesource.com/node_20.x nodistro main\" > /etc/apt/sources.list.d/nodesource.list\n  - apt-get update\n  - apt-get install -y nodejs\n  - ufw default deny incoming\n  - ufw default allow outgoing\n  - ufw allow 2222/tcp\n  - ufw allow 80/tcp\n  - ufw allow 443/tcp\n  - ufw allow 8080/tcp\n  - ufw --force enable\n  - sed -i 's/#Port 22/Port 2222/' /etc/ssh/sshd_config\n  - sed -i 's/^Port 22$/Port 2222/' /etc/ssh/sshd_config\n  - grep -q '^Port 2222' /etc/ssh/sshd_config || echo 'Port 2222' >> /etc/ssh/sshd_config\n  - sed -i 's/PermitRootLogin yes/PermitRootLogin no/' /etc/ssh/sshd_config\n  - systemctl restart sshd\n  - systemctl enable fail2ban\n  - systemctl start fail2ban\n  - curl --proto '=https' --tlsv1.2 -LsSf https://github.com/nearai/ironclaw/releases/latest/download/ironclaw-installer.sh | sh -s -- --no-interactive 2>/dev/null || curl --proto '=https' --tlsv1.2 -LsSf https://github.com/nearai/ironclaw/releases/latest/download/ironclaw-installer.sh | sh\n  - mkdir -p /home/ironclaw/.ironclaw/skills/delibera-worker\n  - chown -R ironclaw:ironclaw /home/ironclaw/.ironclaw\n"

-- renderCloudInit
unfoldable pub render_cloud_init : (ssh_public_key : String) → String
render_cloud_init ssh_public_key = before_key <> (ssh_public_key <> after_key)
