-- ===== src/Deployment/Config.antt =====
-- The configuration files and images of internal/controller/deployment.go.
use site_operator.Common.{
  String, Bool, false, Option, none, some, List, [], ◌∷◌, ◌==◌, ◌<>◌, contains, join_lines,
  if◌then◌else◌,
}
use site_operator.Api.Site.{Site, IngressSpec, NginxSpec, PhpSpec, WordpressSpec, FileBrowserSpec}
use site_operator.Helpers.{bool_ptr_val}

abbrev pub php_ini_file_name : String
php_ini_file_name = "zz-site-operator.ini"

abbrev pub default_php_image : String
default_php_image = "wordpress:php8.5-fpm"

abbrev pub default_nginx_image : String
default_nginx_image = "nginx:1.30-alpine"

-- `x != ""` chooses `x`, and else the default.
abbrev pub text_or : String → String → String
text_or default x = if x == "" then default else x

php_image_of : Option PhpSpec → String
php_image_of none = default_php_image
php_image_of (some p) = text_or default_php_image p.image

unfoldable pub php_image : Site → String
unfolding php_image_of
php_image site = php_image_of site.spec.php

nginx_image_of : Option NginxSpec → String
nginx_image_of none = default_nginx_image
nginx_image_of (some n) = text_or default_nginx_image n.image

unfoldable pub nginx_image : Site → String
unfolding nginx_image_of
nginx_image site = nginx_image_of site.spec.nginx

unfoldable pub file_browser_image_of : Option FileBrowserSpec → String
file_browser_image_of none = "filebrowser/filebrowser:latest"
file_browser_image_of (some f) = text_or "filebrowser/filebrowser:latest" f.image

unfoldable pub file_browser_image : Site → String
unfolding file_browser_image_of
file_browser_image site = file_browser_image_of site.spec.file_browser

wp_version_of : Option WordpressSpec → String
wp_version_of none = "latest"
wp_version_of (some w) = text_or "latest" w.version

unfoldable pub wp_version : Site → String
unfolding wp_version_of
wp_version site = wp_version_of site.spec.wordpress

-- `site.Spec.Ingress != nil && boolPtrVal(site.Spec.Ingress.TLS)`
ingress_tls : Option IngressSpec → Bool
ingress_tls none = false
ingress_tls (some i) = bool_ptr_val i.tls

unfoldable pub tls_enabled : Site → Bool
unfolding ingress_tls
tls_enabled site = ingress_tls site.spec.ingress

nginx_extra_config : Option NginxSpec → String
nginx_extra_config none = ""
nginx_extra_config (some n) = n.config

unfoldable pub extra_config : Site → String
unfolding nginx_extra_config
extra_config site = nginx_extra_config site.spec.nginx

-- `absoluteRedirect`: nginx refuses the directive twice.
unfoldable pub absolute_redirect : String → String
absolute_redirect extra =
    if contains extra "absolute_redirect" then "" else "absolute_redirect off;"

-- The text of `Sprintf`, cut where the four arguments stand.
nginx_head : String
nginx_head = join_lines (
    "" ∷ "server {" ∷ "  listen 80;" ∷ "  server_name _;" ∷ "" ∷ "  root /var/www/html;"
    ∷ "  index index.php index.html;" ∷ "" ∷ "  " ∷ [])

nginx_middle : String
nginx_middle = join_lines ("" ∷ "" ∷ "  " ∷ [])

nginx_locations : String
nginx_locations = join_lines (
    "" ∷ "" ∷ "  location / {" ∷ "    try_files $uri $uri/ /index.php?$args;" ∷ "  }" ∷ ""
    ∷ "  location ~ \\.php$ {" ∷ "    include fastcgi_params;" ∷ "    fastcgi_pass 127.0.0.1:9000;"
    ∷ "    fastcgi_param SCRIPT_FILENAME $document_root$fastcgi_script_name;" ∷ "" ∷ "    " ∷ [])

nginx_break : String
nginx_break = join_lines ("" ∷ "    " ∷ [])

nginx_tail : String
nginx_tail = join_lines ("" ∷ "  }" ∷ "}" ∷ "" ∷ [])

-- The server block from its four variable parts.
unfoldable pub render_nginx : String → String → String → String → String
unfolding nginx_head nginx_middle nginx_locations nginx_break nginx_tail join_lines
render_nginx redirect extra https xfp =
    nginx_head
    <> (redirect
        <> (nginx_middle
            <> (extra <> (nginx_locations <> (https <> (nginx_break <> (xfp <> nginx_tail)))))))

unfoldable pub build_nginx_config_content : Site → String
unfolding tls_enabled extra_config absolute_redirect render_nginx
build_nginx_config_content site =
    let tls = tls_enabled site in
    let extra = extra_config site in
    render_nginx (absolute_redirect extra) extra (if tls then "fastcgi_param HTTPS on;" else "")
      (if tls then "fastcgi_param HTTP_X_FORWARDED_PROTO https;" else "")

php_config_of : Option PhpSpec → String
php_config_of none = ""
php_config_of (some p) = p.config

unfoldable pub build_php_ini_content : Site → String
unfolding php_config_of
build_php_ini_content site = php_config_of site.spec.php

-- What configChecksum writes into the hash: each text and a zero byte behind it.
unfoldable pub checksum_payload : List String → String
checksum_payload [] = ""
checksum_payload (c ∷ cs) = c <> ("\0" <> checksum_payload cs)

-- `hash` is the SHA-256 digest of a text, in hexadecimal.
unfoldable pub config_checksum : (String → String) → List String → String
unfolding checksum_payload
config_checksum hash contents = hash (checksum_payload contents)
