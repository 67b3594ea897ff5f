-- ===== src/Deployment/Scripts.antt =====
-- The shell scripts that the containers run: the raw string literals of
-- internal/controller/deployment.go, line by line.
use site_operator.Common.{String, [], ◌∷◌, join_lines}

unfoldable pub wp_init_script : String
wp_init_script = join_lines (
    "" ∷ "set -e" ∷ "" ∷ "if [ ! -f /var/www/html/wp ]; then" ∷ "  echo \"Downloading wp-cli...\""
    ∷ "  # Use php to download if curl is not available"
    ∷ "  php -r \"copy('https://raw.githubusercontent.com/wp-cli/builds/gh-pages/phar/wp-cli.phar', '/var/www/html/wp');\""
    ∷ "  chmod +x /var/www/html/wp" ∷ "fi" ∷ ""
    ∷ "# Only seeds an empty volume; a site that has already started is never touched."
    ∷ "if [ ! -f /var/www/html/index.php ]; then"
    ∷ "  echo \"Initializing WordPress files (version: $WP_VERSION)...\""
    ∷ "  if [ \"$WP_VERSION\" = \"bundled\" ]; then"
    ∷ "    cp -r /usr/src/wordpress/* /var/www/html/" ∷ "  else"
    ∷ "    # memory_limit: wp-cli's archive extraction needs more than the 128M CLI default."
    ∷ "    # No fallback on purpose: if the download fails the pod fails to start (the"
    ∷ "    # kubelet retries the init container) instead of silently running whatever"
    ∷ "    # older WordPress the node's cached image happens to bundle."
    ∷ "    php -d memory_limit=512M /var/www/html/wp core download --path=/var/www/html --version=\"$WP_VERSION\" --allow-root"
    ∷ "  fi" ∷ "fi" ∷ "" ∷ "# Numeric on purpose: php-fpm and filebrowser run as 33:33 (see their"
    ∷ "# securityContext), but \"www-data\" is uid 33 only on Debian-based images (it is"
    ∷ "# 82 on Alpine ones), so chowning by name breaks spec.php.image with *-alpine."
    ∷ "chown -R 33:33 /var/www/html" ∷ "" ∷ [])

unfoldable pub php_fpm_script : String
php_fpm_script = join_lines (
    "" ∷ "set -e" ∷ "" ∷ "CONFIG=/var/www/html/wp-config.php" ∷ "" ∷ "cat > $CONFIG <<EOF" ∷ "<?php"
    ∷ "define('DB_NAME', getenv('DB_NAME'));" ∷ "define('DB_USER', getenv('DB_USER'));"
    ∷ "define('DB_PASSWORD', getenv('DB_PASSWORD'));" ∷ "define('DB_HOST', getenv('DB_HOST'));" ∷ ""
    ∷ "define('WP_HOME', getenv('WP_HOME'));" ∷ "define('WP_SITEURL', getenv('WP_SITEURL'));" ∷ ""
    ∷ "if (getenv('WP_HOME') && str_starts_with(getenv('WP_HOME'), 'https://')) {"
    ∷ "    \\$_SERVER['HTTPS'] = 'on';" ∷ "    \\$_SERVER['SERVER_PORT'] = 443;"
    ∷ "    if (!defined('FORCE_SSL_ADMIN')) {" ∷ "        define('FORCE_SSL_ADMIN', true);"
    ∷ "    }" ∷ "}" ∷ "" ∷ "// The operator's own wp-cron CronJob calls wp-cron.php directly on a"
    ∷ "// schedule (see cmd/wpcron.go), so WordPress's own page-load-triggered"
    ∷ "// pseudo-cron (unreliable on low-traffic sites, wasted work on high-traffic"
    ∷ "// ones) is disabled here. This does not disable cron events themselves, only"
    ∷ "// the implicit trigger on every page load." ∷ "define('DISABLE_WP_CRON', true);" ∷ ""
    ∷ "define('AUTH_KEY', getenv('AUTH_KEY'));"
    ∷ "define('SECURE_AUTH_KEY', getenv('SECURE_AUTH_KEY'));"
    ∷ "define('LOGGED_IN_KEY', getenv('LOGGED_IN_KEY'));"
    ∷ "define('NONCE_KEY', getenv('NONCE_KEY'));" ∷ "define('AUTH_SALT', getenv('AUTH_SALT'));"
    ∷ "define('SECURE_AUTH_SALT', getenv('SECURE_AUTH_SALT'));"
    ∷ "define('LOGGED_IN_SALT', getenv('LOGGED_IN_SALT'));"
    ∷ "define('NONCE_SALT', getenv('NONCE_SALT'));" ∷ "" ∷ "\\$table_prefix = 'wp_';" ∷ ""
    ∷ "define('WP_DEBUG', getenv('WP_DEBUG') === 'true');"
    ∷ "define('WP_DEBUG_LOG', getenv('WP_DEBUG_LOG') === 'true');"
    ∷ "define('WP_DEBUG_DISPLAY', getenv('WP_DEBUG_DISPLAY') === 'true');" ∷ ""
    ∷ "if ( ! defined( 'ABSPATH' ) ) {" ∷ "\tdefine( 'ABSPATH', __DIR__ . '/' );" ∷ "}" ∷ ""
    ∷ "require_once ABSPATH . 'wp-settings.php';" ∷ "define( 'FS_METHOD', 'direct' );" ∷ "EOF" ∷ ""
    ∷ "if [ \"$WP_INSTALL\" = \"true\" ]; then" ∷ "  echo \"Checking if WordPress is installed...\""
    ∷ "  " ∷ "  # Wait for DB" ∷ "  echo \"Waiting for database connection...\""
    ∷ "  until php -r \"" ∷ "    \\$host = getenv('DB_HOST');" ∷ "    \\$user = getenv('DB_USER');"
    ∷ "    \\$pass = getenv('DB_PASSWORD');" ∷ "    \\$name = getenv('DB_NAME');"
    ∷ "    \\$conn = @new mysqli(\\$host, \\$user, \\$pass, \\$name);"
    ∷ "    if (\\$conn->connect_error) {"
    ∷ "        fwrite(STDERR, 'Connection error: ' . \\$conn->connect_error . PHP_EOL);"
    ∷ "        exit(1);" ∷ "    }" ∷ "    exit(0);" ∷ "  \"; do" ∷ "    sleep 2" ∷ "  done"
    ∷ "  echo \"Database connection ready.\"" ∷ "  "
    ∷ "  if ! /var/www/html/wp core is-installed; then" ∷ "    echo \"Installing WordPress...\""
    ∷ "    /var/www/html/wp core install \\" ∷ "      --url=\"$WP_HOME\" \\"
    ∷ "      --title=\"$WP_TITLE\" \\" ∷ "      --admin_user=\"$WP_ADMIN_USER\" \\"
    ∷ "      --admin_password=\"$WP_ADMIN_PASSWORD\" \\"
    ∷ "      --admin_email=\"$WP_ADMIN_EMAIL\" \\" ∷ "      --skip-email"
    ∷ "    echo \"WordPress installed successfully.\"" ∷ "  else"
    ∷ "    echo \"WordPress is already installed.\"" ∷ "  fi" ∷ "fi" ∷ "" ∷ "exec php-fpm" ∷ ""
    ∷ [])

unfoldable pub file_browser_script : String
file_browser_script = join_lines (
    "" ∷ "set -e" ∷ "if [ ! -f \"$FB_DATABASE\" ]; then"
    ∷ "  filebrowser config init --database=\"$FB_DATABASE\" --address=\"$FB_ADDRESS\" --port=\"$FB_PORT\" --root=\"$FB_ROOT\" --baseURL=\"$FB_BASE_URL\" --fileMode=0o644 --dirMode=0o755"
    ∷ "  filebrowser users add \"$FB_USERNAME\" \"$FB_PASSWORD\" --database=\"$FB_DATABASE\" --perm.admin"
    ∷ "fi" ∷ "exec filebrowser" ∷ "" ∷ [])
